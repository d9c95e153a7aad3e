-- ===== src/Dispatcher/Args.antt =====
-- The arguments of a handler of src/dispatcher.c: a stack.
use tangent.Base.{
  ℕ, ◌<◌, ◌≡◌, refl, some, List, [], ◌∷◌, ◌++◌, get_elem?-set, set-get, set-set, arith,
}
use tangent.Base.Int.{pos}
use tangent.Dispatcher.{
  PacketHandler, Dispatcher, in_table, load, store, take_last, dispatcher_push_arg,
  dispatcher_pop_arg,
}
use tangent.Dispatcher.Table.{
  IsDispatcher, IsStored, store-IsStored, get_handler-in_table, load-in_table,
}

take_last-snoc : {A : Type 0} (bs : List A) (a : A) → take_last (bs ++ (a ∷ [])) ≡ some (a, bs)
unfolding take_last
take_last-snoc [] a = refl
take_last-snoc (b ∷ []) a = refl
take_last-snoc (b ∷ c ∷ cs) a = rw (take_last-snoc (c ∷ cs) a) refl

module _ {A M S : Type 0} where
  -- A push onto the arguments of a type below the size leaves a table in order, in which that type has
  -- the argument behind those it had; the pop restores the table.
  pub dispatcher_push_arg-IsStored :
      (d : Dispatcher A M S) (value : ℕ) (arg : A) (h : PacketHandler A M S)
      → IsDispatcher d
      → value < d.size
      → load d (in_table value) ≡ some h
      → (e : Dispatcher A M S) × (dispatcher_push_arg d (pos value) arg ≡ some (1, e))
        × (dispatcher_pop_arg e (pos value) ≡ some (some arg, d))
        × IsStored d value (record h { process_args = h.process_args ++ (arg ∷ []) }) e
  unfolding dispatcher_push_arg dispatcher_pop_arg load store
  dispatcher_push_arg-IsStored d value arg h w small found =
      let pushed : PacketHandler A M S = record h { process_args = h.process_args ++ (arg ∷ []) } in
      let e : Dispatcher A M S = store d (in_table value) pushed in
      (
        e,
        rw (get_handler-in_table d value small, found),
        rw (
          get_handler-in_table e value small,
          get_elem?-set d.handlers value pushed (omega (arith, w.full)),
          take_last-snoc h.process_args arg,
          set-set d.handlers value pushed h,
          set-get d.handlers value h found,
        ),
        store-IsStored d value pushed w small,
      )

  -- In a dispatcher in order, an argument that is pushed for a type below the size is the one that
  -- the next pop for that type returns, and the pop leaves the dispatcher as it was before the push.
  pub dispatcher_pop_arg-push_arg :
      (d : Dispatcher A M S) (value : ℕ) (arg : A)
      → IsDispatcher d
      → value < d.size
      → (e : Dispatcher A M S) × (dispatcher_push_arg d (pos value) arg ≡ some (1, e))
        × (dispatcher_pop_arg e (pos value) ≡ some (some arg, d))
  dispatcher_pop_arg-push_arg d value arg w small =
      let (h, found) = load-in_table d value w small in
      let (e, pushed, popped, stored) = dispatcher_push_arg-IsStored d value arg h w small found in
      (e, pushed, popped)
