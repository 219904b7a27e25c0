-- ===== src/Struct/Onzero.antt =====
-- The first half of `rpc_struct_onzero_cb`: the pointer, tracked no more, is taken out of each
-- struct that its slots record.
use ffi_rpc.Base.{
  ℕ, ◌≡◌, ◌≢◌, refl, ap, subst, ◌∙◌, ◌⊎◌, inl, inr, Option, some, none, false, List, [], ◌∷◌,
  String, nat_eq, string_eq, ◌==◌, if◌then◌else◌, Bool-cases, Option-cases, nat_beq_iff, arith, All,
  All-mono, take,
}
use ffi_rpc.Ext.Libs.{Libs}
use ffi_rpc.Types.{Element, is_refcounted}
use ffi_rpc.Origins.{OriginCtx}
use ffi_rpc.World.{World, a_struct, RpcStruct, Udata}
use ffi_rpc.World.Cmd.{Run, ok, pure, ◌>>◌}
use ffi_rpc.Struct.{
  Cmd, prec_get, load, prec_decrement, remove_element, remove_with, remove_from_origins,
  onzero_keys,
}
use ffi_rpc.Struct.Observe.{
  Kind, kind, slot, struct_of_kind, load-ok, unlinked, unlink-ok, slot-unlinked, kind-unlinked,
}

module _ {L : Libs} where
  -- From `w` to `w'` nothing happened but that elements which hold `p` were taken out.
  pub record Unlinks (p : ℕ) (w w' : World L) : Type 0 where
    pub table : w'.ptracker ≡ w.ptracker
    pub kinds : (s : ℕ) → kind w' s ≡ kind w s
    pub slots :
        (s : ℕ) (k : String)
        → (slot w' s k ≡ slot w s k)
          ⊎ ((slot w' s k ≡ none) × ((e : Element) × (slot w s k ≡ some e) × (e.word ≡ p)))

  pub Unlinks-refl : {p : ℕ} (w : World L) → Unlinks p w w
  Unlinks-refl w = record { table = refl; kinds = λ s. refl; slots = λ s k. inl refl }

  Unlinks-trans : {p : ℕ} {u v w : World L} → Unlinks p u v → Unlinks p v w → Unlinks p u w
  Unlinks-trans f g = record {
    table = g.table ∙ f.table;
    kinds = λ s. g.kinds s ∙ f.kinds s;
    slots = λ s k. ground (arith, f.slots s k, g.slots s k);
  }

  -- What the removal of the pointer from struct `a` needs.
  abbrev pub Holds : ℕ → World L → String → ℕ → Type 0
  Holds p w key a =
      a ≢ 0 → (kind w a ≡ Kind.struct) × ((e : Element) → slot w a key ≡ some e → e.word ≡ p)

  Unlinks-Holds :
      {p : ℕ} {w w' : World L} (key : String) (a : ℕ)
      → Unlinks p w w'
      → Holds p w key a
      → Holds p w' key a
  Unlinks-Holds key a f h nz =
      (f.kinds a ∙ (h nz).0, λ e at. ground (arith, f.slots a key, (h nz).1 e))

  Unlinks-none :
      {p : ℕ} {w w' : World L} (key : String) (a : ℕ)
      → Unlinks p w w'
      → slot w a key ≡ none
      → slot w' a key ≡ none
  Unlinks-none key a f h = ground (arith, f.slots a key)

  -- The outcome of a command that takes `p` out of some structs.
  pub record Unlinked {A : Type 0} (p : ℕ) (w : World L) (m : Run (World L) A)
      (P : World L → Type 0) : Type 0 where
    pub result : A
    pub world : World L
    pub runs : m ≡ ok result world
    pub unlinks : Unlinks p w world
    pub post : P world

  unlinked-Unlinks :
      (w : World L) (a : ℕ) (o : RpcStruct L) (key : String) (e : Element)
      → w.heap a ≡ some (a_struct o)
      → slot w a key ≡ some e
      → Unlinks e.word w (unlinked w a o key)
  unlinked-Unlinks w a o key e h at = record {
    table = refl;
    kinds = kind-unlinked w a o key h;
    slots = λ s k.
        ground (arith, slot-unlinked w a o key h s k, nat_beq_iff a s, string_eq.same_iff key k);
  }

  pub prec_decrement-untracked :
      (del : ℕ → Cmd L (Unit {0})) (p : ℕ) (u : Option Udata) (w : World L)
      → prec_get p w ≡ none
      → prec_decrement del p u w ≡ ok tt w
  unfolding prec_decrement
  prec_decrement-untracked del p u w un = rw (un, prec_decrement) refl

  pub remove_element-untracked :
      (del : ℕ → Cmd L (Unit {0})) (w : World L) (a : ℕ) (o : RpcStruct L) (key : String)
      (e : Element)
      → w.heap a ≡ some (a_struct o)
      → prec_get e.word w ≡ none
      → remove_element del a key e w ≡ ok 0 (unlinked w a o key)
  unfolding remove_element
  remove_element-untracked del w a o key e h un = elim (Bool-cases (is_refcounted e.type)) [
    | inl c ↦
        rw c (rw (prec_decrement-untracked del e.word _ w un) (rw (unlink-ok a key w o h) refl))
    | inr c ↦ rw c (rw (unlink-ok a key w o h) refl)
  ]

  remove_with-untracked :
      (del : ℕ → Cmd L (Unit {0})) (p : ℕ) (w : World L) (a : ℕ) (key : String)
      → prec_get p w ≡ none
      → Holds p w key a
      → a ≢ 0
      → Unlinked p w (remove_with del a key w) (λ w'. slot w' a key ≡ none)
  unfolding remove_with
  remove_with-untracked del p w a key un holds nz =
      let (o, h) = struct_of_kind (w.heap a) (holds nz).0 in
      let nonnull : (a == 0) ≡ false = ground arith in
      elim (Option-cases (slot w a key)) [
        | inl gone ↦
            let missing : L.by_name.get o.map key ≡ none = rw h at gone in
            record {
              result = 1;
              world = w;
              runs = rw nonnull (rw (load-ok a w o h) (rw missing refl));
              unlinks = Unlinks-refl w;
              post = gone;
            }
        | inr (e, at) ↦
            let present : L.by_name.get o.map key ≡ some e = rw h at at in
            let same = (holds nz).1 e at in
            record {
              result = 0;
              world = unlinked w a o key;
              runs = rw nonnull (
                  rw (load-ok a w o h) (
                    rw present (
                      remove_element-untracked del w a o key e h
                        (ap (λ (q : ℕ). prec_get q w) same ∙ un))));
              unlinks =
                  subst (λ q. Unlinks q w (unlinked w a o key)) same
                    (unlinked-Unlinks w a o key e h at);
              post = ground (
                arith,
                slot-unlinked w a o key h a key,
                nat_beq_iff a a,
                string_eq.same_iff key key,
              );
            }
      ]

  -- The element is gone from each struct of the list.
  abbrev Cleared : World L → String → List ℕ → Type 0
  Cleared w key = All (λ a. a ≢ 0 → slot w a key ≡ none)

  Cleared-Unlinks :
      {p : ℕ} {w w' : World L} (key : String) (list : List ℕ)
      → Unlinks p w w'
      → Cleared w key list
      → Cleared w' key list
  Cleared-Unlinks key list f = All-mono list (λ a h nz. Unlinks-none key a f (h nz))

  remove_origin-Unlinked :
      (del : ℕ → Cmd L (Unit {0})) (p : ℕ) (w : World L) (key : String) (a : ℕ)
      → prec_get p w ≡ none
      → Holds p w key a
      → Unlinked p w
          ((if a == 0 then pure tt else do load a; remove_with del a key; pure tt) w)
          (λ w'. a ≢ 0 → slot w' a key ≡ none)
  remove_origin-Unlinked del p w key a un holds = elim (Bool-cases (a == 0)) [
    | inl null ↦ rw null (record {
      result = tt;
      world = w;
      runs = refl;
      unlinks = Unlinks-refl w;
      post = λ nz. absurd (nz ((nat_beq_iff a 0).0 null));
    })
    | inr live ↦
        let nz : a ≢ 0 = ground arith in
        let (o, h) = struct_of_kind (w.heap a) (holds nz).0 in
        let r = remove_with-untracked del p w a key un holds nz in
        rw live (record {
          result = tt;
          world = r.world;
          runs = rw (load-ok a w o h) (rw r.runs refl);
          unlinks = r.unlinks;
          post = λ _. r.post;
        })
  ]

  remove_from_origins-Unlinked :
      (del : ℕ → Cmd L (Unit {0})) (p : ℕ) (w : World L) (key : String) (list : List ℕ)
      → prec_get p w ≡ none
      → All (Holds p w key) list
      → Unlinked p w (remove_from_origins del key list w) (λ w'. Cleared w' key list)
  unfolding remove_from_origins
  remove_from_origins-Unlinked del p w key [] un holds = record {
    result = tt;
    world = w;
    runs = refl;
    unlinks = Unlinks-refl w;
    post = tt;
  }
  remove_from_origins-Unlinked del p w key (a ∷ list) un holds =
      let r = remove_origin-Unlinked del p w key a un holds.0 in
      let un' : prec_get p r.world ≡ none = ap (λ t. L.by_ptr.get t p) r.unlinks.table ∙ un in
      let rest =
        remove_from_origins-Unlinked del p r.world key list un'
          (All-mono list (λ b. Unlinks-Holds key b r.unlinks) holds.1) in
      record {
        result = tt;
        world = rest.world;
        runs = rw r.runs rest.runs;
        unlinks = Unlinks-trans r.unlinks rest.unlinks;
        post = (λ nz. Unlinks-none key a rest.unlinks (r.post nz), rest.post);
      }

  abbrev pub HoldsAll : ℕ → World L → String × OriginCtx L.queues → Type 0
  HoldsAll p w (key, c) = All (Holds p w key) (take c.o_index c.origins)

  abbrev pub ClearedAll : World L → String × OriginCtx L.queues → Type 0
  ClearedAll w (key, c) = Cleared w key (take c.o_index c.origins)

  HoldsAll-Unlinks :
      {p : ℕ} {w w' : World L} (e : String × OriginCtx L.queues)
      → Unlinks p w w'
      → HoldsAll p w e
      → HoldsAll p w' e
  HoldsAll-Unlinks (key, c) f = All-mono (take c.o_index c.origins) (λ a. Unlinks-Holds key a f)

  pub onzero_keys-Unlinked :
      (del : ℕ → Cmd L (Unit {0})) (p : ℕ) (w : World L) (cs : List (String × OriginCtx L.queues))
      → prec_get p w ≡ none
      → All (HoldsAll p w) cs
      → Unlinked p w (onzero_keys del cs w) (λ w'. All (ClearedAll w') cs)
  unfolding onzero_keys
  onzero_keys-Unlinked del p w [] un holds = record {
    result = tt;
    world = w;
    runs = refl;
    unlinks = Unlinks-refl w;
    post = tt;
  }
  onzero_keys-Unlinked del p w ((key, c) ∷ cs) un holds =
      let r = remove_from_origins-Unlinked del p w key (take c.o_index c.origins) un holds.0 in
      let un' : prec_get p r.world ≡ none = ap (λ t. L.by_ptr.get t p) r.unlinks.table ∙ un in
      let rest =
        onzero_keys-Unlinked del p r.world cs un'
          (All-mono cs (λ e. HoldsAll-Unlinks e r.unlinks) holds.1) in
      record {
        result = tt;
        world = rest.world;
        runs = rw r.runs rest.runs;
        unlinks = Unlinks-trans r.unlinks rest.unlinks;
        post = (Cleared-Unlinks key (take c.o_index c.origins) rest.unlinks r.post, rest.post);
      }
