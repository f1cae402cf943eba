-- ===== src/Endpoint/Filters/Laws.antt =====
-- What the filters let through, told without their order of evaluation.
use mavlink_router_rs.Base.{
  ℕ, ◌≤◌, ◌≡◌, refl, Bool, true, false, not, ◌&&◌, List, [], ◌∷◌, ◌⊎◌, ◌↔◌, inl, inr, any, arith,
  Bool-cases, if◌then◌else◌, Name, name_eq, name_eq_iff,
}
use mavlink_router_rs.Endpoint.Filters.{
  Range, range_contains, Filters, is_empty, pass_range_axis, pass_src_endpoint_axis,
  passes_in_filter, passes_out_filter,
}
use mavlink_router_rs.Mavlink.Frame.{NodeId}

-- Some entry of a list has a property.
pub data Some {ℓ κ} {A : Type ℓ} (P : A → Type κ) : List A → Type (ℓ ⊔ κ) where
  here : {x : A} {xs : List A} → P x → Some P (x ∷ xs)
  there : {x : A} {xs : List A} → Some P xs → Some P (x ∷ xs)

-- An axis is passed by a value that no block entry covers, and that some allow entry covers unless
-- there is none.
abbrev pub Passes {ℓ} : {A : Type ℓ} → (A → Type 0) → List A → List A → Type ℓ
Passes Covers allow block = ((allow ≡ []) ⊎ Some Covers allow) × (¬ Some Covers block)

abbrev pub InRange : ℕ → Range → Type 0
InRange value range = (range.lo ≤ value) × (value ≤ range.hi)

module _ {ℓ} {A : Type ℓ} (p : A → Bool) (P : A → Type 0) (iff : (a : A) → (p a ≡ true) ↔ P a) where
  any→Some : (xs : List A) → any p xs ≡ true → Some P xs
  any→Some [] h = absurd (cc)
  any→Some (x ∷ xs) h = elim (Bool-cases (p x)) [
    | inl hit ↦ here ((iff x).0 hit)
    | inr miss ↦ there (any→Some xs (rw miss at h))
  ]

  Some→any : {xs : List A} → Some P xs → any p xs ≡ true
  Some→any (here {x = x} h) = rw ((iff x).1 h)
  Some→any (there {x = x} s) = ground (arith, Some→any s)

  -- The test of an axis, in the words of `Passes`.
  axis_iff :
      (allow block : List A)
      → ((if not (is_empty allow) && not (any p allow) then false else not (any p block)) ≡ true)
        ↔ Passes P allow block
  axis_iff allow block = (to allow, from allow)
    where
      to :
          (allow : List A)
          → (if not (is_empty allow) && not (any p allow) then false else not (any p block)) ≡ true
          → Passes P allow block
      to [] h = (inl refl, λ s. cc (h, Some→any s))
      to (x ∷ xs) h = elim (Bool-cases (any p (x ∷ xs))) [
        | inl hit ↦ (inr (any→Some (x ∷ xs) hit), λ s. ground (arith, Some→any s))
        | inr miss ↦ absurd (ground arith)
      ]

      clear : ¬ Some P block → any p block ≡ false
      clear h = elim (Bool-cases (any p block)) [
        | inl hit ↦ absurd (h (any→Some block hit))
        | inr miss ↦ miss
      ]

      from :
          (allow : List A)
          → Passes P allow block
          → (if not (is_empty allow) && not (any p allow) then false else not (any p block)) ≡ true
      from [] (a, b) = rw (clear b) refl
      from (x ∷ xs) (inl e, b) = absurd (cc)
      from (x ∷ xs) (inr s, b) = rw (clear b) (rw (Some→any s) refl)

range_iff : (value : ℕ) (range : Range) → (range_contains range value ≡ true) ↔ InRange value range
unfolding range_contains
range_iff value range = ground arith

pass_range_axis_iff :
    (value : ℕ) (allow block : List Range)
    → (pass_range_axis value allow block ≡ true) ↔ Passes (InRange value) allow block
unfolding pass_range_axis
pass_range_axis_iff value =
    axis_iff (λ range. range_contains range value) (InRange value) (range_iff value)

pass_src_endpoint_axis_iff :
    (name : Name) (allow block : List Name)
    → (pass_src_endpoint_axis name allow block ≡ true) ↔ Passes (λ entry. entry ≡ name) allow block
unfolding pass_src_endpoint_axis
pass_src_endpoint_axis_iff name =
    axis_iff (λ entry. name_eq entry name) (λ entry. entry ≡ name) (λ entry. name_eq_iff entry name)

and_iff {ℓ κ} :
    {P : Type ℓ} {Q : Type κ} {a b : Bool}
    → (a ≡ true) ↔ P
    → (b ≡ true) ↔ Q
    → ((a && b) ≡ true) ↔ (P × Q)
and_iff {a = true} {b = b} p q = ((λ h. (p.0 refl, q.0 h)), λ h. q.1 h.1)
and_iff {a = false} {b = b} p q = ((λ h. absurd (cc)), λ h. cc (p.1 h.0))

-- A frame passes the ingress filter exactly if on each of the axes msgid, source system and source
-- component its value lies in some allow range, or there is none, and in no block range.
pub passes_in_filter_iff :
    (filters : Filters) (msgid : ℕ) (src : NodeId)
    → (passes_in_filter filters msgid src ≡ true) ↔ (
        Passes (InRange msgid) filters.allow_msgid_in filters.block_msgid_in
        × (Passes (InRange src.sys) filters.allow_src_sys_in filters.block_src_sys_in
            × Passes (InRange src.comp) filters.allow_src_comp_in filters.block_src_comp_in))
unfolding passes_in_filter
passes_in_filter_iff filters msgid src =
    and_iff (pass_range_axis_iff msgid filters.allow_msgid_in filters.block_msgid_in) (
      and_iff (pass_range_axis_iff src.sys filters.allow_src_sys_in filters.block_src_sys_in)
        (pass_range_axis_iff src.comp filters.allow_src_comp_in filters.block_src_comp_in))

-- A frame passes the egress filter exactly if on each of the axes msgid, source system, source
-- component and source endpoint name its value is covered by some allow entry, or there is none,
-- and by no block entry.
pub passes_out_filter_iff :
    (filters : Filters) (msgid : ℕ) (src : NodeId) (name : Name)
    → (passes_out_filter filters msgid src name ≡ true) ↔ (
        Passes (InRange msgid) filters.allow_msgid_out filters.block_msgid_out
        × (Passes (InRange src.sys) filters.allow_src_sys_out filters.block_src_sys_out
            × (Passes (InRange src.comp) filters.allow_src_comp_out filters.block_src_comp_out
                × Passes
                    (λ (entry : Name). entry ≡ name)
                    filters.allow_src_endpoint_out
                    filters.block_src_endpoint_out)))
unfolding passes_out_filter
passes_out_filter_iff filters msgid src name =
    and_iff (pass_range_axis_iff msgid filters.allow_msgid_out filters.block_msgid_out) (
      and_iff (pass_range_axis_iff src.sys filters.allow_src_sys_out filters.block_src_sys_out) (
        and_iff (pass_range_axis_iff src.comp filters.allow_src_comp_out filters.block_src_comp_out)
          (pass_src_endpoint_axis_iff name filters.allow_src_endpoint_out
            filters.block_src_endpoint_out)))
