-- ===== src/Web/Url.antt =====
-- The URL that the callbacks collect.
use shproject.Prelude.{
  ℕ, zero, suc, ◌+◌, ◌<◌, ◌≡◌, refl, Bool, true, false, some, List, [], ◌∷◌, arith, ltb, length,
  get_elem?,
}
use shproject.Prelude.Int.{pos}
use shproject.Prelude.Outcome.{fault, ◌>>◌, Returns, returns}
use shproject.Heap.{update}
use shproject.Web.{url_size, WebRequest, memcpy, on_url, on_done}

memcpy-below : (xs : List ℕ) (i : ℕ) (url : ℕ → ℕ) (j : ℕ) → j < i → memcpy xs i url j ≡ url j
unfolding memcpy
memcpy-below [] i url j p = refl
memcpy-below (x ∷ xs) i url j p = ground (arith, memcpy-below xs (i + 1) (update url i x) j)

memcpy-inside :
    (xs : List ℕ) (i k c : ℕ) (url : ℕ → ℕ) → get_elem? xs k ≡ some c → memcpy xs i url (i + k) ≡ c
unfolding memcpy
memcpy-inside [] i k c url e = cc
memcpy-inside (x ∷ xs) i zero c url e = ground (arith, memcpy-below xs (i + 1) (update url i x) i)
memcpy-inside (x ∷ xs) i (suc k) c url e =
    let shift : i + suc k ≡ i + 1 + k = omega arith in
    rw shift (memcpy-inside xs (i + 1) k c (update url i x) e)

-- What on_url and on_done leave: the old part of the URL, the buffer behind it, and a terminator.
pub record Ended (request : WebRequest) (buffer : List ℕ) (keep : Bool) (g : WebRequest)
    : Type 0 where
  pub length_of : g.url_length ≡ request.url_length + length buffer
  pub inside : g.url_length < url_size
  pub old : (j : ℕ) → j < request.url_length → g.url j ≡ request.url j
  pub new :
      (k c : ℕ)
      → get_elem? buffer k ≡ some c
      → k < length buffer
      → g.url (request.url_length + k) ≡ c
  pub terminator : g.url g.url_length ≡ 0
  pub done : g.done ≡ true
  pub keep_alive : g.keep_alive ≡ keep

-- A URL part that leaves a byte free is kept behind the earlier ones, and the message's end puts the
-- terminator inside the array.
pub on_url-on_done :
    (request : WebRequest) (buffer : List ℕ) (keep : Bool)
    → request.url_length + length buffer < url_size
    → Returns
        (λ r g. (r ≡ pos 0) × Ended request buffer keep g)
        ((on_url buffer >> on_done keep) request)
unfolding on_url on_done
on_url-on_done request buffer keep p =
    let fits : ltb url_size (request.url_length + length buffer) ≡ false = ground arith in
    let free : ltb (request.url_length + length buffer) url_size ≡ true = ground arith in
    rw (fits, free)
      (returns (
        refl,
        record {
          length_of = refl;
          inside = p;
          old = λ j q. ground (arith, memcpy-below buffer request.url_length request.url j q);
          new =
              λ k c e q. ground (arith, memcpy-inside buffer request.url_length k c request.url e);
          terminator = ground arith;
          done = refl;
          keep_alive = refl;
        },
      ))

-- A URL part that fills the array is accepted, and the message's end writes the terminator behind
-- the array.
pub on_done-overflow :
    (request : WebRequest) (buffer : List ℕ) (keep : Bool)
    → request.url_length + length buffer ≡ url_size
    → (on_url buffer >> on_done keep) request ≡ fault
unfolding on_url on_done
on_done-overflow request buffer keep e = ground arith
