-- ===== src/Linux/Netlink/Attributes.antt =====
-- src/linux/netlink.rs: the loop over the attributes of a payload, and the attributes that
-- `push_attr` wrote.
use network_manager_rs.Common.{
  ℕ, zero, suc, ◌+◌, ◌-◌, ◌/◌, ◌%◌, ◌≤◌, ◌≡◌, refl, sym, ◌∙◌, false, ◌||◌, List, [], ◌∷◌, ◌++◌,
  length, length-append, length-replicate, length-drop, replicate, drop, take_all, drop_all,
  append_assoc, All, IsU16, arith, ltb, lt→ltb, if◌then◌else◌, Result, ok, err, ◌>>=◌, str, Str,
  bind_same, Bool-cases, inl, inr,
}
use network_manager_rs.Linux.Model.{NetlinkError, malformed_message}
use network_manager_rs.Linux.Netlink.Wire.{le_bytes, le_of, part, align}
use network_manager_rs.Linux.Netlink.Structs.{Attr, push_attr, push_attrs}

-- `attr.rta_len` and `attr.rta_type` of the attribute that the bytes start with.
abbrev pub rta_len : List ℕ → ℕ
rta_len bytes = le_of (part 0 2 bytes)

abbrev pub rta_type : List ℕ → ℕ
rta_type bytes = le_of (part 2 2 bytes)

abbrev pub rtattr_text : Str
rtattr_text = str "invalid rtattr length"

module _ {S : Type 0} (text : Str) (step : Attr → S → Result S NetlinkError) where
  -- `while offset + size_of::<RtAttr>() <= payload.len()`, on the bytes from `offset` on; a round
  -- goes on behind the padding, or ends the loop with an error.
  unfoldable pub attrs_loop : ℕ → List ℕ → S → Result S NetlinkError
  attrs_loop zero bytes s = ok s
  attrs_loop (suc fuel) bytes s =
      let len = rta_len bytes in
      let rest : S → Result S NetlinkError = attrs_loop fuel (drop (align len) bytes) in
      if ltb (length bytes) 4
      then ok s
      else if ltb len 4 || ltb (length bytes) len
      then err (malformed_message text)
      else step (rta_type bytes, part 4 (len - 4) bytes) s >>= rest

module _ {S : Type 0} (step : Attr → S → Result S NetlinkError) where
  -- What the loop means: the step, over the attributes in order, up to the first error.
  unfoldable pub each_attr : List Attr → S → Result S NetlinkError
  each_attr [] s = ok s
  each_attr (a ∷ attrs) s = step a s >>= each_attr attrs

  -- The fuel that the parsers give: a round takes at least four bytes.
  abbrev pub walk_attrs : List ℕ → S → Result S NetlinkError
  walk_attrs bytes s = attrs_loop rtattr_text step (length bytes) bytes s

-- The type and the length of an attribute fit their fields.
abbrev pub IsAttr : Attr → Type 0
IsAttr (attr_type, value) = IsU16 attr_type × IsU16 (4 + length value)

u16_bytes : (n : ℕ) → IsU16 n → le_of (le_bytes 2 n) ≡ n
u16_bytes n h = omega arith

-- The bytes behind a pushed attribute's value.
abbrev padding : List ℕ → List ℕ
padding value = replicate (align (4 + length value) - (4 + length value)) 0

length-padding :
    (value : List ℕ) → length (padding value) ≡ align (4 + length value) - (4 + length value)
length-padding value = length-replicate (align (4 + length value) - (4 + length value)) zero

part_value :
    (attr_type : ℕ) (value rest : List ℕ)
    → part 4 (4 + length value - 4) (push_attr (attr_type, value) rest) ≡ value
unfolding push_attr
part_value attr_type value rest = take_all value (padding value ++ rest) _ (omega arith)

drop_attr :
    (attr_type : ℕ) (value rest : List ℕ)
    → drop (align (4 + length value)) (push_attr (attr_type, value) rest) ≡ rest
unfolding push_attr
drop_attr attr_type value rest =
    let attr : List ℕ =
      (4 + length value) % 256
      ∷ (4 + length value) / 256 % 256
      ∷ attr_type % 256
      ∷ attr_type / 256 % 256
      ∷ (value ++ padding value) in
    let whole : length attr ≡ align (4 + length value) =
      omega (arith, length-append value (padding value), length-padding value) in
    rw (sym (append_assoc value (padding value) rest)) (drop_all attr rest _ whole)

pub length-push_attr :
    (attr_type : ℕ) (value rest : List ℕ)
    → length (push_attr (attr_type, value) rest) ≡ align (4 + length value) + length rest
unfolding push_attr
length-push_attr attr_type value rest = omega (
  arith,
  length-append value (padding value ++ rest),
  length-append (padding value) rest,
  length-padding value,
)

module _ {S : Type 0} (text : Str) (step : Attr → S → Result S NetlinkError) where
  same_loop :
      (n m : ℕ) (bytes : List ℕ) (s : S)
      → length bytes ≤ n
      → length bytes ≤ m
      → attrs_loop text step n bytes s ≡ attrs_loop text step m bytes s
  unfolding attrs_loop
  same_loop zero zero bytes s h k = refl
  same_loop zero (suc m) bytes s h k = rw (lt→ltb (length bytes) 4 (omega arith)) refl
  same_loop (suc n) zero bytes s h k = rw (lt→ltb (length bytes) 4 (omega arith)) refl
  same_loop (suc n) (suc m) bytes s h k = elim (Bool-cases (ltb (length bytes) 4)) [
    | inl e ↦ rw e refl
    | inr e ↦ elim (Bool-cases (ltb (rta_len bytes) 4 || ltb (length bytes) (rta_len bytes))) [
      | inl f ↦ rw (e, f) refl
      | inr f ↦
          let tail = drop (align (rta_len bytes)) bytes in
          let shorter : suc (length tail) ≤ length bytes =
            ground (arith, length-drop (align (rta_len bytes)) bytes) in
          rw (e, f)
            (bind_same (step (rta_type bytes, part 4 (rta_len bytes - 4) bytes) s) _ _
              λ t. same_loop n m tail t (omega (arith, shorter)) (omega (arith, shorter)))
    ]
  ]

  -- A round, from what its reads return.
  attrs_loop_round :
      (fuel n attr_type : ℕ) (bytes value rest : List ℕ) (s : S)
      → rta_len bytes ≡ n
      → ltb (length bytes) 4 ≡ false
      → (ltb n 4 || ltb (length bytes) n) ≡ false
      → rta_type bytes ≡ attr_type
      → part 4 (n - 4) bytes ≡ value
      → drop (align n) bytes ≡ rest
      → attrs_loop text step (suc fuel) bytes s
        ≡ (step (attr_type, value) s >>= attrs_loop text step fuel rest)
  unfolding attrs_loop
  attrs_loop_round fuel n attr_type bytes value rest s len enough fits type is_value is_rest =
      rw (len, enough, fits, type, is_value, is_rest) refl

  attrs_loop_step :
      (fuel attr_type : ℕ) (value rest : List ℕ) (s : S)
      → IsAttr (attr_type, value)
      → attrs_loop text step (suc fuel) (push_attr (attr_type, value) rest) s
        ≡ (step (attr_type, value) s >>= attrs_loop text step fuel rest)
  attrs_loop_step fuel attr_type value rest s h =
      let bytes = push_attr (attr_type, value) rest in
      let len : rta_len bytes ≡ 4 + length value =
        unfold push_attr in u16_bytes (4 + length value) h.1 in
      let type : rta_type bytes ≡ attr_type = unfold push_attr in u16_bytes attr_type h.0 in
      let size = length-push_attr attr_type value rest in
      let enough : ltb (length bytes) 4 ≡ false = ground (arith, size) in
      let fits : (ltb (4 + length value) 4 || ltb (length bytes) (4 + length value)) ≡ false =
        ground (arith, size) in
      attrs_loop_round fuel (4 + length value) attr_type bytes value rest s len enough fits type
        (part_value attr_type value rest) (drop_attr attr_type value rest)

  -- More fuel than bytes changes nothing: the loop over the attributes always ends.
  pub attrs_loop_enough :
      (fuel : ℕ) (bytes : List ℕ) (s : S)
      → length bytes ≤ fuel
      → attrs_loop text step fuel bytes s ≡ attrs_loop text step (length bytes) bytes s
  attrs_loop_enough fuel bytes s h = same_loop fuel (length bytes) bytes s h (omega arith)

  -- The loop over the attributes that `push_attr` wrote is the step over them in order.
  pub attrs_loop-push_attrs :
      (fuel : ℕ) (attrs : List Attr) (s : S)
      → All IsAttr attrs
      → length (push_attrs attrs) ≤ fuel
      → attrs_loop text step fuel (push_attrs attrs) s ≡ each_attr step attrs s
  unfolding each_attr
  attrs_loop-push_attrs zero [] s h l = unfold attrs_loop in refl
  attrs_loop-push_attrs (suc fuel) [] s h l = unfold attrs_loop in refl
  attrs_loop-push_attrs zero ((attr_type, value) ∷ attrs) s h l =
      absurd (omega (arith, l, length-push_attr attr_type value (push_attrs attrs)))
  attrs_loop-push_attrs (suc fuel) ((attr_type, value) ∷ attrs) s h l =
      let size = length-push_attr attr_type value (push_attrs attrs) in
      attrs_loop_step fuel attr_type value (push_attrs attrs) s h.0
      ∙ bind_same (step (attr_type, value) s) _ _
          λ t. attrs_loop-push_attrs fuel attrs t h.1 (omega (arith, l, size))
