-- ===== src/Hashing/Ranked.antt =====
-- `rpc_struct_hash` of structs that are not nested in a cycle comes to an end.
use ffi_rpc.Base.{
  ℕ, string_eq, zero, suc, ◌+◌, ◌%◌, ◌<◌, ◌≤◌, ◌^◌, ◌≡◌, length, ltb, false, refl, some, List, [],
  ◌∷◌, String, All, arith, ◌∙◌, All-of_lookup, ap, sym, Option, none,
}
use ffi_rpc.Types.{
  RpcType, Element, rpc_none, rpc_number, rpc_real, rpc_string, rpc_struct, rpc_sizedbuf,
  rpc_function, rpc_unknown,
}
use ffi_rpc.Ext.Libs.{Libs}
use ffi_rpc.World.{World, Object, SizedBuf, a_struct, a_sizedbuf, a_function}
use ffi_rpc.World.Cmd.{Run, ok}
use ffi_rpc.Struct.{Cmd}
use ffi_rpc.Struct.Observe.{Kind, kind, kind_of, slot, element_in, load-ok, struct_of_kind}
use mathlib.Core.Option.{some-injective}
use ffi_rpc.Framing.{to_bytes}
use ffi_rpc.Framing.Delivery.{length-to_bytes}
use ffi_rpc.Hashing.{
  word_size, murmur, murmur_of, sizedbuf_hash, hash_buffer, hash_element, hash_elements,
  struct_hash,
}
use ffi_rpc.Hashing.Bounds.{murmur-lt}

-- Bytes of which as many can be read as `murmur` is asked for.
abbrev pub CanRead : Option (List ℕ) → ℕ → Type 0
CanRead x keylen = (bytes : List ℕ) × (x ≡ some bytes) × (keylen % 2 ^ 32 ≤ length bytes)

value-CanRead : (word keylen : ℕ) → keylen ≤ 8 → CanRead (some (to_bytes 8 word)) keylen
value-CanRead word keylen small = (_, refl, omega (arith, small, length-to_bytes 8 word))

module _ {L : Libs} where
  module _ (text_bytes : String → List ℕ) (bytes_at : World L → ℕ → Option (List ℕ)) where
    -- A nested struct is live and of lower rank, a nested buffer is live. At any other pointer eight
    -- bytes can be read, a text has the noted length, and a value is not longer than the union.
    abbrev pub IsRankedAt : World L → (ℕ → ℕ) → ℕ → RpcType → Element → Type 0
    IsRankedAt w rank s rpc_struct e = (kind w e.word ≡ Kind.struct) × (rank e.word < rank s)
    IsRankedAt w rank s rpc_sizedbuf e = kind w e.word ≡ Kind.sizedbuf
    IsRankedAt w rank s rpc_string e = CanRead (some (text_bytes e.text)) e.length
    IsRankedAt w rank s rpc_function e = CanRead (bytes_at w e.word) 8
    IsRankedAt w rank s rpc_unknown e = CanRead (bytes_at w e.word) 8
    IsRankedAt w rank s _ e = e.length ≤ 8

    abbrev pub IsRanked : World L → (ℕ → ℕ) → Type 0
    IsRanked w rank =
        (s : ℕ) (k : String) (e : Element) → slot w s k ≡ some e → IsRankedAt w rank s e.type e

  -- The command yields a number and changes nothing.
  abbrev Yields : Run (World L) ℕ → World L → Type 0
  Yields r w = (h : ℕ) × (r ≡ ok h w)

  -- It yields a number of 64 bits.
  abbrev pub IsHashed : Run (World L) ℕ → World L → Type 0
  IsHashed r w = (h : ℕ) × (r ≡ ok h w) × (h < word_size)

  IsHashed-Yields : {r : Run (World L) ℕ} {w : World L} → IsHashed r w → Yields r w
  IsHashed-Yields (h, runs, below) = (h, runs)

  sizedbuf_of_kind :
      (x : Option (Object L))
      → kind_of x ≡ Kind.sizedbuf
      → (b : SizedBuf) × (x ≡ some (a_sizedbuf b))
  sizedbuf_of_kind none h = absurd (ground arith)
  sizedbuf_of_kind (some (a_struct o)) h = absurd (ground arith)
  sizedbuf_of_kind (some (a_sizedbuf b)) h = (b, refl)
  sizedbuf_of_kind (some (a_function f)) h = absurd (ground arith)

  hash_buffer-ok :
      (p : ℕ) (w : World L) (b : SizedBuf)
      → w.heap p ≡ some (a_sizedbuf b)
      → hash_buffer p w ≡ ok (sizedbuf_hash b) w
  unfolding hash_buffer
  hash_buffer-ok p w b at = rw (hash_buffer, at) refl

  hash_buffer-Yields : (p : ℕ) (w : World L) → kind w p ≡ Kind.sizedbuf → Yields (hash_buffer p w) w
  hash_buffer-Yields p w is =
      let (b, at) = sizedbuf_of_kind (w.heap p) is in (sizedbuf_hash b, hash_buffer-ok p w b at)

  murmur_of-Yields :
      (x : Option (List ℕ)) (keylen : ℕ) (w : World L)
      → CanRead x keylen
      → Yields (murmur_of x keylen w) w
  unfolding murmur_of
  murmur_of-Yields none keylen w (bytes, e, enough) = absurd (ground (arith, e))
  murmur_of-Yields (some read) keylen w (bytes, e, enough) =
      let same : read ≡ bytes = some-injective read bytes e in
      let inside : ltb (length read) (keylen % 2 ^ 32) ≡ false =
        ground (arith, enough, ap length same) in
      rw inside (_, refl)

  module _ (text_bytes : String → List ℕ) (bytes_at : World L → ℕ → Option (List ℕ)) (rank : ℕ → ℕ)
      (w : World L) where
    hash_element-Yields :
        (nested : ℕ → Cmd L ℕ) (s : ℕ) (type : RpcType) (e : Element)
        → ((p : ℕ) → kind w p ≡ Kind.struct → rank p < rank s → Yields (nested p w) w)
        → IsRankedAt text_bytes bytes_at w rank s type e
        → Yields (hash_element text_bytes bytes_at nested type e w) w
    unfolding hash_element
    hash_element-Yields nested s rpc_struct e f at = f e.word at.0 at.1
    hash_element-Yields nested s rpc_sizedbuf e f at = hash_buffer-Yields e.word w at
    hash_element-Yields nested s rpc_string e f at = murmur_of-Yields _ _ w at
    hash_element-Yields nested s rpc_function e f at = murmur_of-Yields _ _ w at
    hash_element-Yields nested s rpc_unknown e f at = murmur_of-Yields _ _ w at
    hash_element-Yields nested s rpc_none e f at =
        murmur_of-Yields _ _ w (value-CanRead e.word e.length at)
    hash_element-Yields nested s rpc_number e f at =
        murmur_of-Yields _ _ w (value-CanRead e.word e.length at)
    hash_element-Yields nested s rpc_real e f at =
        murmur_of-Yields _ _ w (value-CanRead e.word e.length at)

    hash_elements-IsHashed :
        (nested : ℕ → Cmd L ℕ) (s hash : ℕ) (es : List (String × Element))
        → hash < word_size
        → ((p : ℕ) → kind w p ≡ Kind.struct → rank p < rank s → Yields (nested p w) w)
        → All (λ (x : String × Element). IsRankedAt text_bytes bytes_at w rank s x.1.type x.1) es
        → IsHashed (hash_elements text_bytes bytes_at nested hash es w) w
    unfolding hash_elements
    hash_elements-IsHashed nested s hash [] below f all = (hash, refl, below)
    hash_elements-IsHashed nested s hash ((key, e) ∷ es) below f all =
        let (h, runs) = hash_element-Yields nested s e.type e f all.0 in
        let (h', rest, below') =
          hash_elements-IsHashed nested s (murmur (to_bytes 8 ((hash + h) % word_size)) 8) es
            (murmur-lt (to_bytes 8 ((hash + h) % word_size)) 8) f all.1 in
        (h', rw runs rest, below')

    -- Where every struct nested in a live struct is live and of lower rank, every nested buffer is
    -- live, eight bytes can be read at every other pointer but a text, a text has the length that
    -- is noted for it, and every number is of at most eight bytes: rpc_struct_hash of a live struct
    -- ends without a fault within a depth above the struct's rank, changes nothing and gives a
    -- number of 64 bits.
    pub struct_hash-IsHashed :
        (depth s : ℕ)
        → IsRanked text_bytes bytes_at w rank
        → kind w s ≡ Kind.struct
        → rank s < depth
        → IsHashed (struct_hash text_bytes bytes_at depth s w) w
    unfolding struct_hash
    struct_hash-IsHashed zero s ranked is enough = elim enough [ ]
    struct_hash-IsHashed (suc depth) s ranked is enough =
        let (o, live) = struct_of_kind (w.heap s) is in
        let nested : (p : ℕ)
            → kind w p ≡ Kind.struct
            → rank p < rank s
            → Yields (struct_hash text_bytes bytes_at depth p w) w =
          λ p is' less. IsHashed-Yields (struct_hash-IsHashed depth p ranked is' (omega arith)) in
        let all =
          All-of_lookup
            (λ (x : String × Element). IsRankedAt text_bytes bytes_at w rank s x.1.type x.1)
            (L.by_name.entries o.map) (L.by_name.entries-DistinctKeys o.map)
            (λ k e at.
              ranked s k e
                (ap (element_in k) live ∙ (sym (L.by_name.lookup-entries o.map k) ∙ at))) in
        let (h, runs, below) =
          hash_elements-IsHashed (struct_hash text_bytes bytes_at depth) s 0
            (L.by_name.entries o.map) (omega arith) nested all in
        (h, rw (load-ok s w o live) runs, below)
