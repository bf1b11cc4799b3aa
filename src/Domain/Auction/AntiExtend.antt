-- ===== src/Domain/Auction/AntiExtend.antt =====
-- What ValidateAuctionAntiExtendConfig accepts.
use mathlib.Core.Bool.{false≢true}
use aieas_backend.Prelude.{
  ℕ, ℤ, pos, String, true, List, [], map, codes, upper_code, same_codes_iff, upper_is, trim_space,
  is_empty, empty_iff, none, ◌≡◌, ◌↔◌, ◌∙◌, refl, sym, inl, inr, Bool-cases, arith, ◌<ℤ◌, ◌≤ℤ◌,
}
use aieas_backend.Domain.Auction.{
  AuctionExtendMode, extend_add, extend_reset, other_mode, is_reset, normalize_auction_extend_mode,
  validate_auction_anti_extend_config,
}

-- The text of a mode.
abbrev pub text_of : AuctionExtendMode → String
text_of extend_add = "ADD"
text_of extend_reset = "RESET"
text_of (other_mode s) = s

-- The text without the space around it, in upper case, reads RESET.
abbrev pub ReadsReset : AuctionExtendMode → Type 0
ReadsReset m = map upper_code (codes (trim_space (text_of m))) ≡ codes "RESET"

upper_is_iff :
    (s t : String) → (upper_is s t ≡ true) ↔ (map upper_code (codes (trim_space s)) ≡ codes t)
unfolding upper_is
upper_is_iff s t = same_codes_iff (map upper_code (codes (trim_space s))) (codes t)

not_both : (l : List ℕ) → l ≡ codes "ADD" → l ≡ codes "RESET" → ⊥
not_both l add reset =
    false≢true ((same_codes_iff (codes "ADD") (codes "RESET")).1 (sym add ∙ reset))

pub is_reset-normalize :
    (m : AuctionExtendMode) → (is_reset (normalize_auction_extend_mode m) ≡ true) ↔ (ReadsReset m)
unfolding is_reset normalize_auction_extend_mode trim_space
is_reset-normalize extend_add = (λ h. cc, λ h. absurd (not_both (codes "ADD") refl h))
is_reset-normalize extend_reset = (λ h. refl, λ h. refl)
is_reset-normalize (other_mode s) = elim (Bool-cases (is_empty (trim_space s))) [
  | inl blank ↦ rw blank (
    λ h. cc,
    λ h. (same_codes_iff [] (codes "RESET")).1 (rw ((empty_iff (trim_space s)).0 blank) at h),
  )
  | inr there ↦ elim (Bool-cases (upper_is s "ADD")) [
    | inl add ↦
        rw (there, add)
          (
            λ h. cc,
            λ h.
                absurd (
                  not_both (map upper_code (codes (trim_space s))) ((upper_is_iff s "ADD").0 add)
                    h),
          )
    | inr other ↦ elim (Bool-cases (upper_is s "RESET")) [
      | inl reset ↦ rw (there, other, reset) (λ h. (upper_is_iff s "RESET").0 reset, λ h. refl)
      | inr neither ↦
          rw (there, other, neither) (λ h. cc, λ h. sym neither ∙ (upper_is_iff s "RESET").1 h)
    ]
  ]
]

-- The setting is accepted exactly when both lengths are positive and, where the mode's text, trimmed
-- and in upper case, is RESET, the extension is no shorter than the stretch in which it is made.
pub validate_auction_anti_extend_config_iff :
    (sniping extend : ℤ) (mode : AuctionExtendMode)
    → (validate_auction_anti_extend_config sniping extend mode ≡ none)
      ↔ ((pos 0 <ℤ sniping) × (pos 0 <ℤ extend) × (ReadsReset mode → sniping ≤ℤ extend))
unfolding validate_auction_anti_extend_config
validate_auction_anti_extend_config_iff sniping extend mode =
    let (reads, resets) = is_reset-normalize mode in
    (
      λ h. (ground arith, ground arith, λ r. let q = resets r in ground arith),
      λ (a, b, keeps). elim (Bool-cases (is_reset (normalize_auction_extend_mode mode))) [
        | inl stated ↦ let enough = keeps (reads stated) in ground arith
        | inr differs ↦ ground arith
      ],
    )
