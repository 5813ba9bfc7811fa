-- ===== src/Web/Arrival.antt =====
-- read_and_parse on a request that comes in parts.
use shproject.Prelude.{
  ℕ, ◌+◌, ◌<◌, ◌≡◌, refl, Bool, true, false, Option, List, [], ◌∷◌, arith, length,
}
use shproject.Prelude.Int.{ℤ, pos}
use shproject.Prelude.Outcome.{ok, Returns, returns, Returns-mono}
use shproject.Heap.{update}
use shproject.Web.{url_size, memcpy, finished, parse_url, parse_done}
use shproject.Web.Handler.{Conn, Recv, received, Round, read_and_parse}

-- A request as recv gives it: parts of its URL with the number of bytes that each came in, then the
-- bytes that complete it; and what async_send answers for its response.
pub record Visit : Type 0 where
  pub parts : List (List ℕ × ℕ)
  pub num_read : ℕ
  pub is_get : Bool
  pub keep_alive : Bool
  pub header_sends : List (Option ℕ × ℕ)
  pub body_sends : List (Option ℕ × ℕ)

abbrev pub recvs_of : List (List ℕ × ℕ) → ℕ → Bool → Bool → List Recv
recvs_of [] num_read is_get keep_alive =
    received num_read (parse_done keep_alive (λ _. finished num_read is_get)) ∷ []
recvs_of ((part, n) ∷ parts) num_read is_get keep_alive =
    received n (parse_url part (λ _. finished n false)) ∷ recvs_of parts num_read is_get keep_alive

abbrev pub round_of : Visit → Round
round_of v = record {
  recvs = recvs_of v.parts v.num_read v.is_get v.keep_alive;
  header_sends = v.header_sends;
  body_sends = v.body_sends;
}

abbrev pub url_length_of : List (List ℕ × ℕ) → ℕ
url_length_of [] = 0
url_length_of ((part, n) ∷ parts) = length part + url_length_of parts

-- No recv gives 0 bytes, which would be the end of the connection.
abbrev pub IsRead : List (List ℕ × ℕ) → Type 0
IsRead [] = Unit {0}
IsRead ((part, n) ∷ parts) = (0 < n) × IsRead parts

-- What read_and_parse leaves of a whole request.
pub record Parsed (num_read : ℕ) (is_get keep_alive : Bool) (c : Conn) (r : ℤ) (g : Conn)
    : Type 0 where
  pub result : r ≡ pos num_read
  pub done : g.request.done ≡ true
  pub keep_alive_of : g.request.keep_alive ≡ keep_alive
  pub is_get_of : g.is_get ≡ is_get
  pub log : g.log ≡ c.log

-- The request when a part of its URL is kept.
abbrev kept : Conn → List ℕ → Conn
kept c part = record c {
  request = record c.request {
    url = memcpy part c.request.url_length c.request.url;
    url_length = c.request.url_length + length part;
  };
  is_get = false;
}

abbrev ended : Conn → Bool → Bool → Conn
ended c is_get keep_alive = record c {
  request = record c.request {
    url = update c.request.url c.request.url_length 0;
    done = true;
    keep_alive = keep_alive;
  };
  is_get = is_get;
}

part_run :
    (part : List ℕ) (n : ℕ) (recvs : List Recv) (c : Conn)
    → 0 < n
    → c.request.url_length + length part < url_size
    → c.request.done ≡ false
    → read_and_parse (received n (parse_url part (λ _. finished n false)) ∷ recvs) c
      ≡ read_and_parse recvs (kept c part)
unfolding read_and_parse
part_run part n recvs c some_read fits fresh = ground arith

last_run :
    (num_read : ℕ) (is_get keep_alive : Bool) (c : Conn)
    → c.request.url_length < url_size
    → read_and_parse (recvs_of [] num_read is_get keep_alive) c
      ≡ ok (pos num_read) (ended c is_get keep_alive)
unfolding read_and_parse
last_run num_read is_get keep_alive c fits = ground arith

pub read_and_parse_lem :
    (parts : List (List ℕ × ℕ)) (num_read : ℕ) (is_get keep_alive : Bool) (c : Conn)
    → IsRead parts
    → c.request.url_length + url_length_of parts < url_size
    → c.request.done ≡ false
    → Returns
        (Parsed num_read is_get keep_alive c)
        (read_and_parse (recvs_of parts num_read is_get keep_alive) c)
read_and_parse_lem [] num_read is_get keep_alive c read fits fresh =
    rw (last_run num_read is_get keep_alive c (omega arith)) (
      returns
        (record { result = refl; done = refl; keep_alive_of = refl; is_get_of = refl; log = refl }))
read_and_parse_lem ((part, n) ∷ parts) num_read is_get keep_alive c read fits fresh =
    rw (part_run part n (recvs_of parts num_read is_get keep_alive) c read.0 (omega arith) fresh) (
      Returns-mono
        (read_and_parse_lem parts num_read is_get keep_alive (kept c part) read.1 (omega arith)
          fresh)
        (λ r g q. record {
          result = q.result;
          done = q.done;
          keep_alive_of = q.keep_alive_of;
          is_get_of = q.is_get_of;
          log = q.log;
        }))
