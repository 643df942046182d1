-- ===== src/Queue/Tailq.antt =====
-- The tail queues of include/queue.h. An element is a number; `first` and `last` are the head's
-- fields, `next` and `prev` the `TAILQ_ENTRY` of each element. A `prev` or `last` holds the
-- address of a pointer: the head's `tqh_first`, or the `tqe_next` of an element. An element that
-- was never inserted has a null `prev`, and a write through it is a fault, the `none` of a result.
pub mod Links
pub mod Writes
pub mod Insert
pub mod Remove
use buaa_os.Base.{ℕ, Bool, true, false, Option, none, some, ◌==◌, if◌then◌else◌}

pub data Loc : Type 0 where
  null head : Loc
  link : ℕ → Loc

pub record Tailq : Type 0 where
  pub first : Option ℕ
  pub last : Loc
  pub next : ℕ → Option ℕ
  pub prev : ℕ → Loc

abbrev pub update : {A : Type 0} → (ℕ → A) → ℕ → A → ℕ → A
update f p v q = if q == p then v else f q

-- `*loc`, and `*loc = v`.
abbrev pub deref : Loc → Tailq → Option ℕ
deref null q = none
deref head q = q.first
deref (link e) q = q.next e

abbrev pub assign : Loc → Option ℕ → Tailq → Option Tailq
assign null v q = none
assign head v q = some (record q { first = v })
assign (link e) v q = some (record q { next = update q.next e v })

-- TAILQ_INIT, TAILQ_EMPTY, TAILQ_FIRST.
unfoldable pub init : Tailq → Tailq
init q = record q { first = none; last = head }

-- TAILQ_INSERT_HEAD, by what `tqh_first` holds.
abbrev pub insert_before : Option ℕ → ℕ → Tailq → Tailq
insert_before none e q = record q {
  next = update q.next e none;
  last = link e;
  first = some e;
  prev = update q.prev e head;
}
insert_before (some f) e q = record q {
  next = update q.next e (some f);
  first = some e;
  prev = update (update q.prev f (link e)) e head;
}

unfoldable pub insert_head : ℕ → Tailq → Tailq
insert_head e q = insert_before q.first e q

unfoldable pub insert_tail : ℕ → Tailq → Option Tailq
insert_tail e q =
    let q1 : Tailq = record q { next = update q.next e none; prev = update q.prev e q.last } in
    elim (assign q.last (some e) q1) [ none ↦ none | some q2 ↦ some (record q2 { last = link e }) ]

-- The first half of TAILQ_REMOVE: the element behind, or the head, takes over `tqe_prev`.
abbrev pub unhook : Option ℕ → Loc → Tailq → Tailq
unhook none p q = record q { last = p }
unhook (some n) p q = record q { prev = update q.prev n p }

-- `*(elm)->field.tqe_prev = (elm)->field.tqe_next` reads the fields after the first half.
unfoldable pub remove : ℕ → Tailq → Option Tailq
remove e q = let q1 = unhook (q.next e) (q.prev e) q in assign (q1.prev e) (q1.next e) q1
