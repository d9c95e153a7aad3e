-- ===== src/Finger/Insert.antt =====
-- `insert_finger` of src/finger.c keeps the finger list in order, on every branch.
use tangent.Base.{
  ℕ, ◌≡◌, ◌≢◌, ◌⊎◌, inl, inr, refl, sym, Bool, true, false, not, ◌&&◌, none, some, ◌==◌, arith, All,
  Bool-cases, Option-cases,
}
use tangent.Id.{ChordId, IsId}
use tangent.Id.Between.{id_equals_iff}
use tangent.Server.{Finger, ChordServer, In6Addr}
use tangent.Server.Addr.{v6_addr_equals}
use tangent.Finger.{
  insert_finger, insert_known, insert_new, Inserted, get_finger, new_finger, replace_peer,
}
use tangent.Finger.Search.{In, All-In, In-modify}
use tangent.Finger.Sorted.{HasId, get_finger-none, get_finger-some}
use tangent.Finger.Invariant.{SameTurns, IsTable}
use tangent.Finger.Room.{IsRoomy, make_room-IsRoomy}
use tangent.Finger.Place.{insert_new_lem, insert_new-IsTable, In-insert_by_rank}
use tangent.Finger.Store.{modify-IsTable}

abbrev pub is_own : ChordServer → In6Addr → ℕ → Bool
is_own srv addr port = v6_addr_equals srv.node.addr addr && srv.node.port == port

-- What a call of `insert_finger` guarantees of its results.
pub record IsInserted (srv : ChordServer) (id : ChordId) (own : Bool) (ins : Inserted)
    : Type 0 where
  pub table : IsTable ins.srv
  pub same_node : ins.srv.node ≡ srv.node
  pub same_turns : SameTurns srv ins.srv
  pub result :
      ((own ≡ true) × (ins.finger ≡ none) × (ins.fnew ≡ none) × (ins.srv ≡ srv))
      ⊎ ((own ≡ false)
          × ((f : Finger) × (b : Bool) × (ins.finger ≡ some f)
              × (ins.fnew ≡ some b)
              × In f ins.srv.flist
              × (f.node.id ≡ id)))

insert_known-IsInserted :
    (srv : ChordServer) (id : ChordId) (f : Finger) (addr : In6Addr) (port : ℕ)
    → IsTable srv
    → In f srv.flist
    → f.node.id ≡ id
    → IsInserted srv id false (insert_known srv f addr port)
unfolding insert_known
insert_known-IsInserted srv id f addr port t m e =
    elim (Bool-cases (not (v6_addr_equals f.node.addr addr))) [
      | inl other ↦ rw other (record {
        table =
            modify-IsTable srv f.loc (replace_peer addr port) (λ g. refl) (λ g. refl) (λ g. refl)
              (λ g h. omega arith) t;
        same_node = refl;
        same_turns = (refl, refl);
        result = inr (
          refl,
          (
            replace_peer addr port f,
            false,
            refl,
            refl,
            In-modify f (replace_peer addr port) srv.flist t.list.distinct m,
            e,
          ),
        );
      })
      | inr same ↦ rw same (record {
        table = t;
        same_node = refl;
        same_turns = (refl, refl);
        result = inr (refl, (f, false, refl, refl, m, e));
      })
    ]

insert_new-IsInserted :
    (srv roomy : ChordServer) (id : ChordId) (addr : In6Addr) (port : ℕ)
    → IsRoomy srv roomy
    → IsId id
    → All (λ f. id ≢ f.node.id) srv.flist
    → IsInserted srv id false (insert_new roomy id addr port)
unfolding new_finger
insert_new-IsInserted srv roomy id addr port r h absent =
    let t = insert_new-IsTable roomy id addr port r.table h r.space (r.absent id absent) in
    let e = insert_new_lem roomy id addr port r.table h in
    rw e (record {
      table = rw e at t;
      same_node = r.same_node;
      same_turns = r.same_turns;
      result =
          inr (refl, (_, true, refl, refl, In-insert_by_rank roomy.node.id _ roomy.flist, refl));
    })

-- `insert_finger` always returns: its assertion never fails. It keeps the invariant and the server's
-- own node, refuses exactly the server's own address and port, leaving everything as it was, and
-- otherwise returns a finger of the resulting list that has the identifier asked for.
pub insert_finger-IsInserted :
    (srv : ChordServer) (id : ChordId) (addr : In6Addr) (port : ℕ)
    → IsTable srv
    → IsId id
    → (ins : Inserted) × (insert_finger srv id addr port ≡ some ins)
      × IsInserted srv id (is_own srv addr port) ins
unfolding insert_finger
insert_finger-IsInserted srv id addr port t h = elim (Bool-cases (is_own srv addr port)) [
  | inl own ↦ (
    record { finger = none; fnew = none; srv = srv },
    rw own,
    rw own (record {
      table = t;
      same_node = refl;
      same_turns = (refl, refl);
      result = inl (refl, refl, refl, refl);
    }),
  )
  | inr other ↦ elim (Option-cases (get_finger srv id)) [
    | inr ((f, i), e) ↦
        let (m, same) = get_finger-some srv id f i e in
        let same_id =
          (id_equals_iff id f.node.id h (All-In HasId f srv.flist t.list.ids m)).0 same in
        (
          insert_known srv f addr port,
          rw (other, e, insert_finger),
          rw other (insert_known-IsInserted srv id f addr port t m (sym same_id)),
        )
    | inl e ↦
        let (roomy, made, r) = make_room-IsRoomy srv t in
        (
          insert_new roomy id addr port,
          rw (other, e, insert_finger, made),
          rw other (
              insert_new-IsInserted srv roomy id addr port r h
                (get_finger-none srv id h t.list.ids e)),
        )
  ]
]
