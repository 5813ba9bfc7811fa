-- ===== src/Sched/Threads/Moves.antt =====
-- The steps keep the places of the coroutines.
use shproject.Prelude.{
  ℕ, ◌≡◌, ◌≢◌, ◌<◌, true, false, none, some, List, [], ◌∷◌, ◌++◌, ◌==◌, arith, has-append,
  IsDistinct-snoc,
}
use shproject.Heap.{update}
use shproject.Sched.State.{blocking, blocked, Coroutine, World}
use shproject.Sched.Threads.{Machine, view, leave}
use shproject.Sched.Threads.Places.{
  Place, asleep, queued, running, parked, queued_on, runs_on, parked_on, IsPlaced,
}
use shproject.Sched.Wake.{announced}
use shproject.Sched.Suspend.{begun}

pub runs_on-place : (i : ℕ) (l : Place) → runs_on i l ≡ true → l ≡ running i
runs_on-place i asleep h = cc
runs_on-place i (queued j) h = cc
runs_on-place i (running j) h = ground arith
runs_on-place i (parked j) h = cc

pub queued_on-place : (i : ℕ) (l : Place) → queued_on i l ≡ true → l ≡ queued i
queued_on-place i asleep h = cc
queued_on-place i (queued j) h = ground arith
queued_on-place i (running j) h = cc
queued_on-place i (parked j) h = cc

pub parked_on-place : (i : ℕ) (l : Place) → parked_on i l ≡ true → l ≡ parked i
parked_on-place i asleep h = cc
parked_on-place i (queued j) h = cc
parked_on-place i (running j) h = cc
parked_on-place i (parked j) h = ground arith

module _ (n main : ℕ) (m : Machine) (place : ℕ → Place) (v : IsPlaced n main m place) (i : ℕ)
    (p : i < n) (quiet : m.pending i ≡ none) where
  abbrev pub me : ℕ
  me = (m.locals i).current_coro

  pub my_place : place me ≡ running i
  my_place = runs_on-place i (place me) (ground (arith, v.in_turn i p me))

  pub announce-IsPlaced :
      (x : Coroutine)
      → m.shared.coros me ≡ some x
      → IsPlaced n main (leave m i (announced (view m i) x) none) place
  announce-IsPlaced x e = record {
    in_queue = λ j q c. ground (arith, v.in_queue j q c);
    in_turn = λ j q c. ground (arith, v.in_turn j q c);
    in_park = λ j q c. ground (arith, v.in_park j q c);
    range = v.range;
    distinct = λ j q. ground (arith, v.distinct j q);
    lock = λ j q. ground (arith, v.lock j q);
    loop = λ j q. ground (arith, v.loop j q);
    fits = λ c y f. ground (arith, my_place, v.fits c y, v.fits me x e);
    live = λ c f. ground (arith, v.live c);
    next = λ j q y r f. ground (arith, v.next j q y, v.in_turn j q me, my_place);
    null = v.null;
  }

  pub begin-IsPlaced :
      (c : ℕ) (x y : Coroutine) (rest : List ℕ)
      → (m.locals i).run_list ≡ c ∷ rest
      → m.shared.coros me ≡ some x
      → m.shared.coros c ≡ some y
      → me ≢ main
      → (m.locals i).event_loop_coro ≢ me
      → IsPlaced n main
          (leave m i (begun (view m i) me x c y rest) (some me))
          (update (update place me (parked i)) c (running i))
  begin-IsPlaced c x y rest h e e' off awake =
      let there : place c ≡ queued i =
        queued_on-place i (place c) (ground (arith, v.in_queue i p c, h)) in
      record {
        in_queue = λ j q t.
            ground (arith, v.in_queue j q t, v.in_queue i p t, v.distinct i p, h, my_place, there);
        in_turn = λ j q t. ground (arith, v.in_turn j q t, v.in_turn i p t, h, my_place, there);
        in_park = λ j q t. ground (arith, v.in_park j q t, v.in_park i p t, h, my_place, there);
        range = λ t. ground (arith, v.range t);
        distinct = λ j q. ground (arith, v.distinct j q, v.distinct i p, h);
        lock = λ j q. ground (arith, v.lock j q);
        loop = λ j q. ground (arith, v.loop j q, v.loop i p, h);
        fits = λ t z f. ground (arith, my_place, there, v.fits t z, v.fits me x e, v.fits c y e');
        live = λ t f. ground (arith, v.live t);
        next = λ j q z r f. ground (
          arith,
          v.next j q z,
          v.in_turn j q me,
          v.in_turn j q c,
          my_place,
          there,
          v.fits c y e',
        );
        null = ground (arith, v.null, my_place, there);
      }

module _ (n main : ℕ) (m : Machine) (place : ℕ → Place) (v : IsPlaced n main m place) (i a : ℕ)
    (p : i < n) (busy : m.pending i ≡ some a) (x y : Coroutine) (e : m.shared.coros a ≡ some x)
    (e' : m.shared.coros (m.locals i).current_coro ≡ some y) where
  abbrev pub its_next : ℕ
  its_next = (m.locals i).current_coro

  parked-place : place a ≡ parked i
  parked-place = parked_on-place i (place a) (ground (arith, v.in_park i p a))

  next_place : place its_next ≡ running i
  next_place = runs_on-place i (place its_next) (ground (arith, v.in_turn i p its_next))

  abbrev pub slept : World
  slept = record m.shared {
    coros = update m.shared.coros a (some (record x { state = blocked }));
    lsched = record (m.locals i) { preempt_lock = false };
  }

  pub sleep-IsPlaced :
      x.state ≡ blocking → IsPlaced n main (leave m i slept none) (update place a asleep)
  sleep-IsPlaced st = record {
    in_queue = λ j q t. ground (arith, v.in_queue j q t, parked-place);
    in_turn = λ j q t. ground (arith, v.in_turn j q t, parked-place);
    in_park = λ j q t. ground (arith, v.in_park j q t, parked-place);
    range = λ t. ground (arith, v.range t);
    distinct = λ j q. ground (arith, v.distinct j q);
    lock = λ j q. ground (arith, v.lock j q);
    loop = λ j q. ground (arith, v.loop j q);
    fits = λ t z f. ground (arith, parked-place, v.fits t z, v.fits a x e);
    live = λ t f. ground (arith, v.live t);
    next = λ j q z r f. ground (arith, v.next j q z, v.in_turn j q a, parked-place);
    null = ground (arith, v.null, parked-place);
  }

  abbrev pub stayed : World
  stayed = record m.shared {
    coros = update m.shared.coros its_next (some (record y { linked = true }));
    lsched = record (m.locals i) {
      run_list = (m.locals i).run_list ++ its_next ∷ [];
      current_coro = a;
      errno = x.private_errno;
      preempt_lock = false;
    };
  }

  pub stay-IsPlaced :
      IsPlaced n main
        (leave m i stayed none)
        (update (update place a (running i)) its_next (queued i))
  stay-IsPlaced =
      let apart : (a == its_next) ≡ false = ground (arith, parked-place, next_place) in
      record {
        in_queue = λ j q t. ground (
          arith,
          v.in_queue j q t,
          parked-place,
          next_place,
          has-append t (m.locals i).run_list (its_next ∷ []),
        );
        in_turn =
            λ j q t. ground (arith, v.in_turn j q t, v.in_turn i p t, parked-place, next_place);
        in_park =
            λ j q t. ground (arith, v.in_park j q t, v.in_park i p t, parked-place, next_place);
        range = λ t. ground (arith, v.range t);
        distinct = λ j q. ground (
          arith,
          v.distinct j q,
          IsDistinct-snoc its_next (m.locals i).run_list,
          v.distinct i p,
          v.in_queue i p its_next,
          next_place,
        );
        lock = λ j q. ground (arith, v.lock j q);
        loop = λ j q. ground (
          arith,
          v.loop j q,
          has-append (m.locals i).event_loop_coro (m.locals i).run_list (its_next ∷ []),
        );
        fits = λ t z f. ground (
          arith,
          parked-place,
          next_place,
          v.fits t z,
          v.fits a x e,
          v.fits its_next y e',
          v.next i p y,
        );
        live = λ t f. ground (arith, v.live t);
        next = λ j q z r f. ground (arith, v.next j q z, v.in_turn j q its_next, next_place);
        null = ground (arith, v.null, next_place, parked-place);
      }
