-- ===== src/Ring.antt =====
-- util/list.h: the circular doubly-linked list with a sentinel, over a store of links.
-- A store gives the two pointers of the node at each address; only NULL faults, since list.h
-- allocates nothing and the life of a node is its caller's matter. The DEBUG assertions are off.
pub mod Cycle
pub mod Insert
pub mod Remove
pub mod Queue
pub mod Deque
mod Tests
use shproject.Prelude.{ℕ, Bool, ◌||◌, not, ◌==◌, if◌then◌else◌}
use shproject.Prelude.Outcome.{Prog, ok, fault, pure, ◌>>=◌, ◌>>◌}

abbrev pub Ptr : Type 0
Ptr = ℕ

abbrev pub null : Ptr
null = 0

-- `struct list_node`
pub record Node : Type 0 where
  pub next : Ptr
  pub prev : Ptr

abbrev pub Store : Type 0
Store = Ptr → Node

abbrev pub write : Store → Ptr → Node → Store
write h p n a = if a == p then n else h a

unfoldable pub load : Ptr → Prog Store Node
load p h = if p == null then fault else ok (h p) h

-- `p->next = q` and `p->prev = q`
unfoldable pub set_next : Ptr → Ptr → Prog Store (Unit {0})
set_next p q h = if p == null then fault else ok tt (write h p (record (h p) { next = q }))

unfoldable pub set_prev : Ptr → Ptr → Prog Store (Unit {0})
set_prev p q h = if p == null then fault else ok tt (write h p (record (h p) { prev = q }))

unfoldable pub list_init : Ptr → Prog Store (Unit {0})
unfolding set_next set_prev
list_init list = do set_next list list; set_prev list list

unfoldable pub list_node_init : Ptr → Prog Store (Unit {0})
unfolding set_next set_prev
list_node_init node = do set_next node null; set_prev node null

unfoldable pub list_empty : Ptr → Prog Store Bool
unfolding load
list_empty list = do n ← load list; pure (n.next == list)

unfoldable pub list_in_list : Ptr → Prog Store Bool
unfolding load
list_in_list node = do n ← load node; pure (not (n.next == null) || not (n.prev == null))

unfoldable pub list_front : Ptr → Prog Store Ptr
unfolding load
list_front list = do n ← load list; pure n.next

unfoldable pub list_back : Ptr → Prog Store Ptr
unfolding load
list_back list = do n ← load list; pure n.prev

unfoldable pub list_insert : Ptr → Ptr → Prog Store (Unit {0})
unfolding load set_next set_prev
list_insert after item = do
  a ← load after
  set_next item a.next
  set_prev item after
  set_next after item
  i ← load item
  set_prev i.next item

unfoldable pub list_remove : Ptr → Prog Store (Unit {0})
unfolding load set_next set_prev
list_remove item = do
  i ← load item
  set_next i.prev i.next
  j ← load item
  set_prev j.next j.prev
  set_prev item null
  set_next item null

unfoldable pub list_push_front : Ptr → Ptr → Prog Store (Unit {0})
unfolding list_insert
list_push_front list entry = list_insert list entry

unfoldable pub list_push_back : Ptr → Ptr → Prog Store (Unit {0})
unfolding list_insert list_back
list_push_back list entry = do back ← list_back list; list_insert back entry

unfoldable pub list_pop_front : Ptr → Prog Store Ptr
unfolding load list_remove
list_pop_front list = do n ← load list; list_remove n.next; pure n.next

unfoldable pub list_pop_back : Ptr → Prog Store Ptr
unfolding load list_remove
list_pop_back list = do n ← load list; list_remove n.prev; pure n.prev
