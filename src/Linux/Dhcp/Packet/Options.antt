-- ===== src/Linux/Dhcp/Packet/Options.antt =====
-- The options of a message, written and read back.
use network_manager_rs.Common.{
  ℕ, zero, suc, ◌%◌, ◌<◌, ◌≤◌, ◌≡◌, refl, true, false, List, [], ◌∷◌, ◌++◌, ok, ◌>>=◌, length,
  length-append, take_all, drop_all, keep, All, arith, ◌==◌, ltb, Bool-cases, inl, inr,
}
use network_manager_rs.Linux.Dhcp.Packet.{
  DhcpOption, is_written, build_options, parse_options, option_pad, option_end,
}

-- An option whose length fits the byte that carries it.
abbrev pub IsShort : DhcpOption → Type 0
IsShort (code, value) = length value < 256

parse_options_step :
    (fuel code : ℕ) (value rest : List ℕ)
    → is_written (code, value) ≡ true
    → length value < 256
    → parse_options (suc fuel) (code ∷ length value % 256 ∷ (value ++ rest))
      ≡ (parse_options fuel rest >>= λ options. ok ((code, value) ∷ options))
unfolding parse_options
parse_options_step fuel code value rest h l =
    let pad : (code == option_pad) ≡ false = ground arith in
    let end : (code == option_end) ≡ false = ground arith in
    let len : length value % 256 ≡ length value = omega arith in
    let fits : ltb (length (value ++ rest)) (length value) ≡ false =
      ground (arith, length-append value rest) in
    let some_left : ltb (suc (length (value ++ rest))) 1 ≡ false = ground arith in
    rw
      (
        pad,
        end,
        some_left,
        len,
        fits,
        drop_all value rest (length value) refl,
        take_all value rest (length value) refl,
      )
      refl

build_options_some : (entries : List DhcpOption) → 1 ≤ length (build_options entries)
unfolding build_options
build_options_some [] = omega arith
build_options_some ((code, value) ∷ entries) = ground (arith, build_options_some entries)

-- The options that `build_options` writes are those that the loop of `parse` reads back.
pub parse_options-build :
    (fuel : ℕ) (entries : List DhcpOption)
    → All IsShort entries
    → length (build_options entries) ≤ fuel
    → parse_options fuel (build_options entries) ≡ ok (keep is_written entries)
unfolding build_options
parse_options-build zero entries h l = absurd (omega (arith, l, build_options_some entries))
parse_options-build (suc fuel) [] h l = unfold parse_options in refl
parse_options-build (suc fuel) ((code, value) ∷ entries) h l =
    elim (Bool-cases (is_written (code, value))) [
      | inl e ↦
          let k : length (code ∷ length value % 256 ∷ (value ++ build_options entries)) ≤ suc fuel =
            rw e at l in
          rw
            (
              e,
              parse_options_step fuel code value (build_options entries) e h.0,
              parse_options-build fuel entries h.1
                  (omega (arith, k, length-append value (build_options entries))),
            )
            refl
      | inr e ↦ rw e (parse_options-build (suc fuel) entries h.1 (rw e at l))
    ]
