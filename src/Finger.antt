-- ===== src/Finger.antt =====
-- src/finger.c: the finger list. Logging is left out.
-- A store through a `Finger *` changes the cell at its address; a search returns the cell it found.
pub mod Search
pub mod Sorted
pub mod Closest
pub mod Worst
pub mod Room
pub mod Place
pub mod Store
pub mod Insert
pub mod Invariant
pub mod Rtt
pub mod Links
mod Tests
use tangent.Base.{
  ℕ, zero, suc, ◌+◌, ◌-◌, ◌≡◌, Bool, true, false, not, ◌&&◌, ◌||◌, Option, none, some, List, [],
  ◌∷◌, ◌==◌, if◌then◌else◌,
}
use tangent.Base.Int.{ℤ, pos, negsuc, ◌+ℤ◌, ◌-ℤ◌, ltb_ℤ, leb_ℤ}
use tangent.Id.{ChordId, id_equals, id_is_between}
use tangent.Server.{
  Node, Finger, Status, passive, active, ChordServer, In6Addr, max_passive_fingers, ping_thresh,
}
use tangent.Server.Addr.{v6_addr_equals}

-- `loc` is the address that `emalloc` returns.
unfoldable pub new_finger : ℕ → Node → Finger
new_finger loc n = record {
  loc = loc;
  node = n;
  status = passive;
  npings = 0;
  rtt_avg = pos 0;
  rtt_dev = pos 0;
}

abbrev pub is_active : Finger → Bool
is_active f = elim f.status [ active ↦ true | passive ↦ false ]

-- The first finger that passes a test, in the order of the `next` links.
unfoldable pub first_such : (Finger → Bool) → List Finger → Option Finger
first_such p [] = none
first_such p (f ∷ fs) = if p f then some f else first_such p fs

-- The first that passes it in the order of the `prev` links, from the tail.
unfoldable pub last_such : (Finger → Bool) → List Finger → Option Finger
last_such p [] = none
last_such p (f ∷ fs) = elim (last_such p fs) [
  | some g ↦ some g
  | none ↦ if p f then some f else none
]

unfoldable pub succ_finger : ChordServer → Option Finger
succ_finger srv = first_such is_active srv.flist

unfoldable pub pred_finger : ChordServer → Option Finger
pred_finger srv = last_such is_active srv.flist

-- `fall` asks for passive fingers too.
abbrev pub is_preceding : ChordId → ChordId → Bool → Finger → Bool
is_preceding self id fall f = (fall || is_active f) && id_is_between f.node.id self id

unfoldable pub closest_preceding_finger : ChordServer → ChordId → Bool → Option Finger
closest_preceding_finger srv id fall = last_such (is_preceding srv.node.id id fall) srv.flist

unfoldable pub closest_preceding_node : ChordServer → ChordId → Bool → Node
closest_preceding_node srv id fall = elim (closest_preceding_finger srv id fall) [
  | none ↦ srv.node
  | some f ↦ f.node
]

get_finger_from : List Finger → ChordId → ℕ → Option (Finger × ℕ)
get_finger_from [] id i = none
get_finger_from (f ∷ fs) id i =
    if id_equals id f.node.id then some (f, i) else get_finger_from fs id (i + 1)

-- The finger with the identifier, and what is stored through `index`.
pub get_finger : ChordServer → ChordId → Option (Finger × ℕ)
unfolding get_finger_from
get_finger srv id = get_finger_from srv.flist id 0

-- The loop's variables are the worst finger so far and `npings_record`, which starts at -1.
worst_passive : List Finger → Option Finger → ℤ → Option Finger
worst_passive [] worst npings_record = worst
worst_passive (f ∷ fs) worst npings_record =
    let on = worst_passive fs (some f) (pos f.npings) in
    let skip = worst_passive fs worst npings_record in
    if not (is_active f) && ltb_ℤ npings_record (pos f.npings)
    then (if leb_ℤ (pos (ping_thresh - 1)) (pos f.npings) then some f else on)
    else skip

pub get_worst_passive_finger : ChordServer → Option Finger
unfolding worst_passive
get_worst_passive_finger srv = worst_passive srv.flist none (negsuc 0)

-- Makes `f->next = new_f`, between the finger at `loc` and the one after it.
insert_after : ℕ → Finger → List Finger → List Finger
insert_after loc new_f [] = []
insert_after loc new_f (f ∷ fs) =
    if f.loc == loc then f ∷ new_f ∷ fs else f ∷ insert_after loc new_f fs

pub place : Option Finger → Finger → List Finger → List Finger
unfolding insert_after
place none new_f fs = new_f ∷ fs
place (some prec_f) new_f fs = insert_after prec_f.loc new_f fs

unfoldable pub fingerlist_insert : ChordServer → Finger → ChordServer
unfolding place
fingerlist_insert srv new_f = elim srv.flist [
  | [] ↦ record srv { flist = new_f ∷ [] }
  | f ∷ fs ↦ record srv {
    flist = place (closest_preceding_finger srv new_f.node.id true) new_f srv.flist;
  }
]

-- A store through a pointer: `change` is applied to the cell at `loc`.
unfoldable pub modify : ℕ → (Finger → Finger) → List Finger → List Finger
modify loc change [] = []
modify loc change (f ∷ fs) = if f.loc == loc then change f ∷ fs else f ∷ modify loc change fs

-- A read through a pointer; `none` if no cell of the list lies there any more.
unfoldable pub deref : ℕ → List Finger → Option Finger
deref loc [] = none
deref loc (f ∷ fs) = if f.loc == loc then some f else deref loc fs

-- Takes the cell at `loc` out of the list.
unfoldable pub unlink : ℕ → List Finger → List Finger
unlink loc [] = []
unlink loc (f ∷ fs) = if f.loc == loc then fs else f ∷ unlink loc fs

-- src/chord.c
unfoldable pub chord_update_range : ChordServer → ChordId → ChordId → ChordServer
chord_update_range srv l r = record srv { pred_bound = l; node = record srv.node { id = r } }

-- `p == q` for two pointers that may be NULL.
abbrev pub same_finger : Option Finger → Option Finger → Bool
same_finger none none = true
same_finger none (some g) = false
same_finger (some f) none = false
same_finger (some f) (some g) = f.loc == g.loc

unfoldable pub activate_finger : ChordServer → Finger → ChordServer
activate_finger srv f = elim f.status [
  | active ↦ srv
  | passive ↦ record srv {
    num_passive_fingers = srv.num_passive_fingers -ℤ pos 1;
    flist = modify f.loc (λ g. record g { status = active }) srv.flist;
  }
]

-- The part of `remove_finger` before the range is looked at.
abbrev pub drop_finger : ChordServer → Finger → ChordServer
drop_finger srv f = record srv {
  num_passive_fingers =
      if is_active f then srv.num_passive_fingers else srv.num_passive_fingers -ℤ pos 1;
  flist = unlink f.loc srv.flist;
}

-- `if (pred != pf)` of `remove_finger`: the range follows the predecessor.
abbrev pub follow_pred : ChordServer → Option Finger → Option Finger → ChordServer
follow_pred srv pred pf = if same_finger pred pf then srv else elim pf [
  | none ↦ chord_update_range srv srv.node.id srv.node.id
  | some p ↦ chord_update_range srv p.node.id srv.node.id
]

unfoldable pub remove_finger : ChordServer → Finger → ChordServer
remove_finger srv f =
    follow_pred (drop_finger srv f) (pred_finger srv) (pred_finger (drop_finger srv f))

-- What `insert_finger` leaves: the finger it returns, what it stores through `fnew` (`none` where it
-- stores nothing), and the server.
pub record Inserted : Type 0 where
  pub finger : Option Finger
  pub fnew : Option Bool
  pub srv : ChordServer

-- The stores that replace the peer of a finger.
abbrev replace_peer : In6Addr → ℕ → Finger → Finger
replace_peer addr port f = record f {
  node = record (f.node) { addr = addr; port = port };
  rtt_avg = pos 0;
  rtt_dev = pos 0;
  npings = 0;
}

insert_known : ChordServer → Finger → In6Addr → ℕ → Inserted
insert_known srv f addr port =
    if not (v6_addr_equals f.node.addr addr)
    then record {
      finger = some (replace_peer addr port f);
      fnew = some false;
      srv = record srv { flist = modify f.loc (replace_peer addr port) srv.flist };
    }
    else record { finger = some f; fnew = some false; srv = srv }

-- Behind the limit on passive fingers: allocate the finger and link it.
pub insert_new : ChordServer → ChordId → In6Addr → ℕ → Inserted
insert_new srv id addr port =
    let new_f = new_finger srv.next_loc (record { id = id; addr = addr; port = port }) in
    record {
      finger = some new_f;
      fnew = some true;
      srv =
          fingerlist_insert
            (record srv {
              num_passive_fingers = srv.num_passive_fingers +ℤ pos 1;
              next_loc = suc srv.next_loc;
            })
            new_f;
    }

-- `none` is a failed `assert(worst_finger)`.
pub make_room : ChordServer → Option ChordServer
make_room srv =
    if leb_ℤ (pos max_passive_fingers) srv.num_passive_fingers
    then elim (get_worst_passive_finger srv) [
      | none ↦ none
      | some worst_finger ↦ some (remove_finger srv worst_finger)
    ]
    else some srv

-- `none` is a failed assertion.
pub insert_finger : ChordServer → ChordId → In6Addr → ℕ → Option Inserted
unfolding insert_known insert_new make_room
insert_finger srv id addr port =
    if v6_addr_equals srv.node.addr addr && srv.node.port == port
    then some (record { finger = none; fnew = none; srv = srv })
    else elim (get_finger srv id) [
      | some (f, index) ↦ some (insert_known srv f addr port)
      | none ↦ elim (make_room srv) [
        | none ↦ none
        | some roomy ↦ some (insert_new roomy id addr port)
      ]
    ]
