-- ===== src/Sched/Threads/Wakes.antt =====
-- Waking and yielding keep the places of the coroutines.
use shproject.Prelude.{
  ℕ, ◌≡◌, ◌≢◌, refl, ◌<◌, true, false, none, some, List, [], ◌∷◌, ◌==◌, arith, Bool-cases, inl, inr,
  has-append, IsDistinct-snoc,
}
use shproject.Heap.{update}
use shproject.Sched.State.{runnable, blocked, Coroutine}
use shproject.Sched.Core.{is_blocked}
use shproject.Sched.Threads.{Machine, view, leave}
use shproject.Sched.Threads.Places.{Place, asleep, queued, running, parked, Fits, IsPlaced}
use shproject.Sched.Threads.Moves.{queued_on-place, my_place, me}
use shproject.Sched.Schedule.{marked, awakened}
use shproject.Sched.Die.{buried}
use shproject.Sched.Resched.{switched, rotated}

pub blocked-place :
    (main c : ℕ) (l : Place) (x : Coroutine)
    → Fits main c l x
    → x.state ≡ blocked
    → c ≢ main
    → l ≡ asleep
blocked-place main c asleep x f b off = refl
blocked-place main c (queued i) x f b off = absurd (off (f.1 b))
blocked-place main c (running i) x f b off = absurd (off (f.1 b))
blocked-place main c (parked i) x f b off = absurd (f.1 b)

Fits-runnable :
    (main c : ℕ) (l : Place) (x : Coroutine)
    → Fits main c l x
    → is_blocked x.state ≡ false
    → Fits main c l (record x { state = runnable })
Fits-runnable main c asleep x f up = absurd (ground (arith, f))
Fits-runnable main c (queued i) x f up = (f.0, λ b. cc, f.2)
Fits-runnable main c (running i) x f up = (f.0, λ b. cc)
Fits-runnable main c (parked i) x f up = (f.0, λ b. cc, f.2)

module _ (n main : ℕ) (m : Machine) (place : ℕ → Place) (v : IsPlaced n main m place) (i : ℕ)
    (p : i < n) (quiet : m.pending i ≡ none) where
  -- A step that changes nothing.
  pub still-IsPlaced : IsPlaced n main (leave m i (view m i) none) place
  still-IsPlaced = record {
    in_queue = λ j q t. ground (arith, v.in_queue j q t);
    in_turn = λ j q t. ground (arith, v.in_turn j q t);
    in_park = λ j q t. ground (arith, v.in_park j q t);
    range = v.range;
    distinct = λ j q. ground (arith, v.distinct j q);
    lock = λ j q. ground (arith, v.lock j q);
    loop = λ j q. ground (arith, v.loop j q);
    fits = v.fits;
    live = v.live;
    next = λ j q z r f. ground (arith, v.next j q z);
    null = v.null;
  }

  pub awaken-IsPlaced :
      (c : ℕ) (x : Coroutine)
      → m.shared.coros c ≡ some x
      → x.state ≡ blocked
      → c ≢ main
      → (c == 0) ≡ false
      → IsPlaced n main (leave m i (awakened (view m i) c x) none) (update place c (queued i))
  awaken-IsPlaced c x e b off nz =
      let there : place c ≡ asleep = blocked-place main c (place c) x (v.fits c x e) b off in
      record {
        in_queue = λ j q t.
            ground (arith, v.in_queue j q t, there, has-append t (m.locals i).run_list (c ∷ []));
        in_turn = λ j q t. ground (arith, v.in_turn j q t, there);
        in_park = λ j q t. ground (arith, v.in_park j q t, there);
        range = λ t. ground (arith, v.range t);
        distinct = λ j q. ground (
          arith,
          v.distinct j q,
          IsDistinct-snoc c (m.locals i).run_list,
          v.distinct i p,
          v.in_queue i p c,
          there,
        );
        lock = λ j q. ground (arith, v.lock j q);
        loop = λ j q. ground (
          arith,
          v.loop j q,
          has-append (m.locals i).event_loop_coro (m.locals i).run_list (c ∷ []),
        );
        fits = λ t z f. ground (arith, there, v.fits t z, v.fits c x e);
        live = λ t f. ground (arith, v.live t);
        next = λ j q z r f. ground (arith, v.next j q z, v.in_turn j q c, there);
        null = ground (arith, v.null);
      }

  pub mark-IsPlaced :
      (c : ℕ) (x : Coroutine)
      → m.shared.coros c ≡ some x
      → is_blocked x.state ≡ false
      → IsPlaced n main (leave m i (marked (view m i) c x) none) place
  mark-IsPlaced c x e up = record {
    in_queue = λ j q t. ground (arith, v.in_queue j q t);
    in_turn = λ j q t. ground (arith, v.in_turn j q t);
    in_park = λ j q t. ground (arith, v.in_park j q t);
    range = v.range;
    distinct = λ j q. ground (arith, v.distinct j q);
    lock = λ j q. ground (arith, v.lock j q);
    loop = λ j q. ground (arith, v.loop j q);
    fits = λ t z f. elim (Bool-cases (t == c)) [
      | inl self ↦
          let same : t ≡ c = ground arith in
          let it : z ≡ record x { state = runnable } = ground arith in
          rw (it, same) (Fits-runnable main c (place c) x (v.fits c x e) up)
      | inr other ↦ v.fits t z (ground arith)
    ];
    live = λ t f. ground (arith, v.live t);
    next = λ j q z r f. ground (arith, v.next j q x, v.next j q z);
    null = v.null;
  }

  pub yield-IsPlaced :
      (c : ℕ) (x y : Coroutine) (rest : List ℕ)
      → (m.locals i).run_list ≡ c ∷ rest
      → m.shared.coros (me n main m place v i p quiet) ≡ some x
      → m.shared.coros c ≡ some y
      → IsPlaced n main
          (leave m i
            (switched
              (rotated (view m i) (m.locals i).current_coro x c y rest)
              (m.locals i).current_coro
              (record x { linked = true })
              c
              (record y { linked = false }))
            none)
          (update (update place (m.locals i).current_coro (queued i)) c (running i))
  yield-IsPlaced c x y rest h e e' =
      let a : ℕ = (m.locals i).current_coro in
      let here : place a ≡ running i = my_place n main m place v i p quiet in
      let there : place c ≡ queued i =
        queued_on-place i (place c) (ground (arith, v.in_queue i p c, h)) in
      record {
        in_queue = λ j q t. ground (
          arith,
          v.in_queue j q t,
          v.in_queue i p t,
          v.distinct i p,
          h,
          here,
          there,
          has-append t rest (a ∷ []),
        );
        in_turn = λ j q t. ground (arith, v.in_turn j q t, v.in_turn i p t, h, here, there);
        in_park = λ j q t. ground (arith, v.in_park j q t, v.in_park i p t, h, here, there);
        range = λ t. ground (arith, v.range t);
        distinct = λ j q. ground (
          arith,
          v.distinct j q,
          v.distinct i p,
          h,
          v.in_queue i p a,
          here,
          IsDistinct-snoc a rest,
        );
        lock = λ j q. ground (arith, v.lock j q);
        loop = λ j q. ground (
          arith,
          v.loop j q,
          v.loop i p,
          h,
          has-append (m.locals i).event_loop_coro rest (a ∷ []),
        );
        fits = λ t z f. ground (arith, here, there, v.fits t z, v.fits a x e, v.fits c y e');
        live = λ t f. ground (arith, v.live t);
        next = λ j q z r f.
            ground (arith, v.next j q z, v.in_turn j q a, v.in_turn j q c, here, there);
        null = ground (arith, v.null, here, there);
      }

  pub die-IsPlaced :
      (c : ℕ) (x y : Coroutine) (rest : List ℕ)
      → (m.locals i).run_list ≡ c ∷ rest
      → m.shared.coros (m.locals i).current_coro ≡ some x
      → m.shared.coros c ≡ some y
      → (m.locals i).event_loop_coro ≢ (m.locals i).current_coro
      → IsPlaced n main
          (leave m i (buried (view m i) (m.locals i).current_coro c y rest) none)
          (update (update place (m.locals i).current_coro asleep) c (running i))
  die-IsPlaced c x y rest h e e' off =
      let a : ℕ = (m.locals i).current_coro in
      let here : place a ≡ running i = my_place n main m place v i p quiet in
      let there : place c ≡ queued i =
        queued_on-place i (place c) (ground (arith, v.in_queue i p c, h)) in
      record {
        in_queue = λ j q t.
            ground (arith, v.in_queue j q t, v.in_queue i p t, v.distinct i p, h, here, there);
        in_turn = λ j q t. ground (arith, v.in_turn j q t, v.in_turn i p t, h, here, there);
        in_park = λ j q t. ground (arith, v.in_park j q t, v.in_park i p t, h, here, there);
        range = λ t. ground (arith, v.range t);
        distinct = λ j q. ground (arith, v.distinct j q, v.distinct i p, h);
        lock = λ j q. ground (arith, v.lock j q);
        loop = λ j q. ground (arith, v.loop j q, v.loop i p, h);
        fits = λ t z f. ground (arith, here, there, v.fits t z, v.fits c y e');
        live = λ t f. ground (arith, v.live t, here, there);
        next = λ j q z r f.
            ground (arith, v.next j q z, v.in_turn j q a, v.in_turn j q c, here, there);
        null = ground (arith, v.null, here, there);
      }
