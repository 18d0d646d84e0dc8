-- ===== src/Retention/Cap.antt =====
-- `effective_prune_cap` of videobackup/retention.py is the largest budget that keeps both promises.
use videobackup.Base.{Option, ◌≡◌, ◌↔◌, none, some, arith, inl, inr}
use videobackup.Base.{
  ℤ, pos, ◌+ℤ◌, ◌-ℤ◌, ◌≤ℤ◌, ◌<ℤ◌, ltb_ℤ, max_ℤ, min_ℤ, int_laws, +ℤ_parts, -ℤ_parts,
}
use videobackup.Base.{eq_of_parts, lt→ltb_ℤ, ltb_ℤ→lt, ltb_ℤ→le, Bool-cases}
use videobackup.Retention.{tighten, quota_cap, effective_prune_cap}

-- The account keeps its free bytes after the upload, if the folder is pruned to `budget`.
abbrev pub KeepsFree : ℤ → ℤ → ℤ → ℤ → ℤ → Type 0
KeepsFree min_free_bytes reserve folder_total account_free budget =
    min_free_bytes +ℤ reserve +ℤ budget ≤ℤ account_free +ℤ folder_total

max_ℤ_of_le : (a b : ℤ) → a ≤ℤ b → max_ℤ a b ≡ b
unfolding max_ℤ
max_ℤ_of_le a b h = ground (arith, eq_of_parts a b)

-- The tightening meets the deficit, for the largest budget that does.
tighten_iff :
    (cap folder_total deficit budget : ℤ)
    → deficit ≤ℤ folder_total
    → (budget ≤ℤ tighten cap folder_total deficit)
      ↔ ((budget ≤ℤ cap) × (pos 0 <ℤ deficit → budget +ℤ deficit ≤ℤ folder_total))
unfolding tighten max_ℤ min_ℤ
tighten_iff cap total d b h = (
  λ p. ground (arith, +ℤ_parts b d, -ℤ_parts total d),
  λ p. ground (arith, +ℤ_parts b d, -ℤ_parts total d),
)

module _ (max_drive_bytes reserve folder_total budget : ℤ) where
  -- With the guard on and the account's free bytes known, the budgets up to the folder's size that
  -- are at or under the cap are those that leave room for `reserve` more bytes under
  -- `max_drive_bytes` and also keep `min_free_bytes` free after
  -- the upload, where `reserve` itself fits and deleting the whole folder would free enough.
  pub effective_prune_cap-quota_iff :
      (min_free_bytes account_free : ℤ)
      → pos 0 ≤ℤ reserve
      → reserve ≤ℤ max_drive_bytes
      → pos 0 <ℤ min_free_bytes
      → min_free_bytes +ℤ reserve ≤ℤ account_free +ℤ folder_total
      → budget ≤ℤ folder_total
      → (budget
          ≤ℤ effective_prune_cap max_drive_bytes reserve folder_total
              (some account_free)
              min_free_bytes)
        ↔ ((budget +ℤ reserve ≤ℤ max_drive_bytes)
            × KeepsFree min_free_bytes reserve folder_total account_free budget)
  unfolding effective_prune_cap
  effective_prune_cap-quota_iff m a h k q r t =
      rw
        (
          max_ℤ_of_le (pos 0) reserve h,
          max_ℤ_of_le (pos 0) room (omega int_laws),
          lt→ltb_ℤ (pos 0) m q,
        )
        (
          λ p.
              let w = spec.0 p in
              (
                omega int_laws,
                elim (Bool-cases (ltb_ℤ (pos 0) deficit)) [
                  | inl e ↦
                      omega (int_laws, ltb_ℤ→lt (pos 0) deficit e, w.1 (ltb_ℤ→lt (pos 0) deficit e))
                  | inr e ↦ omega (int_laws, ltb_ℤ→le (pos 0) deficit e)
                ],
              ),
          λ p. spec.1 (omega int_laws, λ d. omega int_laws),
        )
    where
      room : ℤ
      room = max_drive_bytes -ℤ reserve

      deficit : ℤ
      deficit = m -ℤ (a -ℤ reserve)

      spec :
          (budget ≤ℤ tighten room folder_total deficit)
          ↔ ((budget ≤ℤ room) × (pos 0 <ℤ deficit → budget +ℤ deficit ≤ℤ folder_total))
      spec = tighten_iff room folder_total deficit budget (omega int_laws)

tighten_bounds :
    (cap folder_total deficit : ℤ)
    → pos 0 ≤ℤ cap
    → (pos 0 ≤ℤ tighten cap folder_total deficit) × (tighten cap folder_total deficit ≤ℤ cap)
unfolding tighten max_ℤ min_ℤ
tighten_bounds cap total d h = (ground arith, ground arith)

quota_cap_bounds :
    (cap reserve folder_total : ℤ) (account_free : Option ℤ) (min_free_bytes : ℤ)
    → pos 0 ≤ℤ cap
    → (pos 0 ≤ℤ quota_cap cap reserve folder_total account_free min_free_bytes)
      × (quota_cap cap reserve folder_total account_free min_free_bytes ≤ℤ cap)
unfolding quota_cap
quota_cap_bounds cap reserve total none m h = (h, omega int_laws)
quota_cap_bounds cap reserve total (some a) m h = elim (Bool-cases (ltb_ℤ (pos 0) m)) [
  | inl e ↦ rw e (tighten_bounds cap total (m -ℤ (a -ℤ reserve)) h)
  | inr e ↦ rw e (h, omega int_laws)
]

-- The cap is never negative, and `reserve` more bytes fit over it under `max_drive_bytes`, where
-- `reserve` is not negative and itself fits.
pub effective_prune_cap_bounds :
    (max_drive_bytes reserve folder_total : ℤ) (account_free : Option ℤ) (min_free_bytes : ℤ)
    → pos 0 ≤ℤ reserve
    → reserve ≤ℤ max_drive_bytes
    → (pos 0
        ≤ℤ effective_prune_cap max_drive_bytes reserve folder_total account_free min_free_bytes)
      × (effective_prune_cap max_drive_bytes reserve folder_total account_free min_free_bytes
            +ℤ reserve
          ≤ℤ max_drive_bytes)
unfolding effective_prune_cap
effective_prune_cap_bounds max_drive_bytes reserve total free m h k =
    let room = max_drive_bytes -ℤ reserve in
    let room_nonneg : pos 0 ≤ℤ room = omega int_laws in
    let (low, high) = quota_cap_bounds room reserve total free m room_nonneg in
    rw (max_ℤ_of_le (pos 0) reserve h, max_ℤ_of_le (pos 0) room room_nonneg) (low, omega int_laws)
