-- ===== src/CallStack.antt =====
-- The objects under whose name calls are running, `RO_object_stack` of src/rpc_object.c: a queue.
use ffi_rpc.Base.{
  ℕ, ◌≡◌, ap, ◌∙◌, Option, none, some, List, [], ◌∷◌, ◌++◌, nat_eq, ◌==◌, false, if◌then◌else◌,
  length, arith,
}
use ffi_rpc.Ext.Queue.{QueueLib}

module _ (Q : QueueLib) where
  -- `rpc_cobject_push`
  unfoldable pub push : ℕ → Q.Queue ℕ → Q.Queue ℕ
  push cobject stack = Q.add_last stack cobject

  -- `rpc_cobject_current`: `none` where its `assert` fails.
  unfoldable pub current : Q.Queue ℕ → Option ℕ
  current stack = if Q.size stack == 0 then none else Q.peek_first stack

  -- `rpc_cobject_pop`. The front of an empty queue is undefined in the source; every pop follows its
  -- push.
  unfoldable pub pop : Q.Queue ℕ → Q.Queue ℕ
  pop stack = elim (Q.del_first stack) [ none ↦ stack | some (cobject, rest) ↦ rest ]

  pub current-cons :
      (q : Q.Queue ℕ) (a : ℕ) (xs : List ℕ) → Q.to_list q ≡ a ∷ xs → current q ≡ some a
  unfolding current
  current-cons q a xs e =
      let filled : (Q.size q == 0) ≡ false = ground (arith, Q.size-length q, ap length e) in
      rw filled (Q.peek_first-cons q a xs e)

  pop-cons : (q : Q.Queue ℕ) (a : ℕ) (xs : List ℕ) → Q.to_list q ≡ a ∷ xs → Q.to_list (pop q) ≡ xs
  unfolding pop
  pop-cons q a xs e = let (rest, popped, left) = Q.del_first-cons q a xs e in rw (popped, pop) left

  -- When a call starts while another object's call is running, the current object is still the
  -- outermost one, and when it returns it is the outermost one that leaves, with the new one
  -- staying behind the others.
  pub pop-push :
      (stack : Q.Queue ℕ) (outer inner : ℕ) (others : List ℕ)
      → Q.to_list stack ≡ outer ∷ others
      → (current (push inner stack) ≡ some outer)
        × (Q.to_list (pop (push inner stack)) ≡ others ++ inner ∷ [])
  unfolding push
  pop-push stack outer inner others e =
      let pushed : Q.to_list (Q.add_last stack inner) ≡ outer ∷ (others ++ inner ∷ []) =
        Q.to_list-add_last stack inner ∙ ap (λ xs. xs ++ inner ∷ []) e in
      (current-cons _ _ _ pushed, pop-cons _ _ _ pushed)
