-- ===== src/Process/Invariant.antt =====
-- The invariant of a server, and how the steps of the handlers of src/process.c keep it.
use tangent.Base.Int.{ℤ}
use tangent.Base.{
  ℕ, ◌<◌, ◌≡◌, ◌⊎◌, inl, inr, refl, ap, ◌∙◌, Bool, true, false, Option, none, some, List, [],
  length, leb, if◌then◌else◌, arith, Bool-cases,
}
use tangent.Id.{ChordId, IsId}
use tangent.Server.{nfingers, nsuccessors, Finger, ChordServer, In6Addr}
use tangent.Server.Addr.{is_addr_unspecified}
use tangent.Finger.{Inserted, insert_finger, pred_finger, modify, activate_finger}
use tangent.Finger.Search.{In}
use tangent.Finger.Invariant.{SameTurns, IsTable, activate_finger-list}
use tangent.Finger.Store.{modify-IsTable}
use tangent.Finger.Insert.{IsInserted, insert_finger-IsInserted, is_own}
use tangent.Send.{Command}
use tangent.Process.{Outcome, returned, fault, ◌>>=◌, copy, ErrorCode}
use tangent.Process.Peers.{activate_and_follow, heard}
use tangent.Process.Follow.{activate_and_follow_lem, activate_finger-same}

-- The round-robin counters of src/stabilize.c are in range.
abbrev pub InTurn : ChordServer → Type 0
InTurn srv = (srv.to_fix_finger < nfingers) × (srv.to_fix_backup < nsuccessors)

pub SameTurns-InTurn : (srv t : ChordServer) → SameTurns srv t → InTurn srv → InTurn t
SameTurns-InTurn srv t same turn = (rw same.0 turn.0, rw same.1 turn.1)

-- The finger table is in order, and empty until the server knows its own address; the counters are
-- in range.
pub record IsServer (srv : ChordServer) : Type 0 where
  pub table : IsTable srv
  pub undiscovered : (is_addr_unspecified srv.node.addr ≡ false) ⊎ (srv.flist ≡ [])
  pub turns : InTurn srv

-- What a handler returns is in order; it may fault only where `faults` says so.
pub data Keeps (faults : Bool) : Outcome → Type 0 where
  kept :
      {code : ErrorCode} {srv : ChordServer} {cmds : List Command}
      → IsServer srv
      → Keeps faults (returned code srv cmds)
  faulted : faults ≡ true → Keeps faults fault

pub activate_and_follow-Keeps :
    {b : Bool} (srv : ChordServer) (f : Finger)
    → IsServer srv
    → In f srv.flist
    → Keeps b (activate_and_follow srv f)
unfolding pred_finger
activate_and_follow-Keeps srv f v m =
    let (node, _, turns) = activate_finger-same srv f in
    rw (activate_and_follow_lem srv f v.table m) (
      kept (record {
        table = record {
          self = rw node v.table.self;
          list = activate_finger-list srv f v.table.list m;
          range = refl;
        };
        undiscovered = rw node (known v.undiscovered);
        turns = SameTurns-InTurn srv (activate_finger srv f) turns v.turns;
      }))
  where
    known :
        (is_addr_unspecified srv.node.addr ≡ false) ⊎ (srv.flist ≡ [])
        → (is_addr_unspecified srv.node.addr ≡ false) ⊎ ((activate_finger srv f).flist ≡ [])
    known (inl k) = inl k
    known (inr k) = absurd (rw k at m)

-- Hearing from a peer changes nothing that the invariant speaks of but the count of pings.
pub touch-IsServer :
    (new_rtt : ℤ) (s : ChordServer) (f : Finger)
    → IsServer s
    → IsServer (record s { flist = modify f.loc (heard new_rtt) s.flist })
unfolding modify
touch-IsServer new_rtt s f w = record {
  table =
      modify-IsTable s f.loc (heard new_rtt) (λ g. refl) (λ g. refl) (λ g. refl)
        (λ g h. omega arith) w.table;
  undiscovered = elim w.undiscovered [ inl k ↦ inl k | inr k ↦ inr (rw (k, modify)) ];
  turns = w.turns;
}

-- Behind an insertion, if what follows keeps the invariant of what was inserted into.
pub insert-Keeps :
    {b : Bool} (srv : ChordServer) (id : ChordId) (addr : In6Addr) (port : ℕ)
    (k : Inserted → Outcome)
    → IsServer srv
    → is_addr_unspecified srv.node.addr ≡ false
    → IsId id
    → ((ins : Inserted)
        → IsServer ins.srv
        → IsInserted srv id (is_own srv addr port) ins
        → Keeps b (k ins))
    → Keeps b (insert_finger srv id addr port >>= k)
insert-Keeps srv id addr port k v known h next =
    let (ins, e, r) = insert_finger-IsInserted srv id addr port v.table h in
    rw e (
      next ins
        (record {
          table = r.table;
          undiscovered = inl (ap (λ n. is_addr_unspecified n.addr) r.same_node ∙ known);
          turns = SameTurns-InTurn srv ins.srv r.same_turns v.turns;
        })
        r)

pub copy-Keeps :
    (n : ℕ) (bytes : List ℕ) (k : List ℕ → Outcome)
    → ((a : List ℕ) → Keeps true (k a))
    → Keeps true (copy n bytes >>= k)
unfolding copy
copy-Keeps n bytes k next = elim (Bool-cases (leb n (length bytes))) [
  | inl e ↦ rw e (next _)
  | inr e ↦ rw e (faulted refl)
]

pub bind-Keeps {ℓ} :
    {A : Type ℓ} (o : Option A) (k : A → Outcome)
    → ((a : A) → Keeps true (k a))
    → Keeps true (o >>= k)
bind-Keeps none k next = faulted refl
bind-Keeps (some a) k next = next a

-- A test whose branches keep the invariant.
pub if-Keeps :
    {b : Bool} (test : Bool) (x y : Outcome)
    → (test ≡ true → Keeps b x)
    → (test ≡ false → Keeps b y)
    → Keeps b (if test then x else y)
if-Keeps true x y hx hy = hx refl
if-Keeps false x y hx hy = hy refl
