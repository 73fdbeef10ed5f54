-- ===== src/Raw/Filter/Keep.antt =====
-- Which records `trace_filter` keeps, said of the list of records: an independent description of the
-- ACTIVE/IDLE_CANDIDATE machine in trace_filter.c, by looking ahead and without a buffer.
use champsim_infra.Prelude.{
  ◌&&◌, Bool, true, false, List, [], ◌∷◌, map, if◌then◌else◌, ◌≡◌, refl, ap, arith,
}

module _ {A : Type 0} (is_hlt is_user : A → Bool) where
  -- The next HLT comes before the next user-mode record.
  abbrev pub ends_idle : List A → Bool
  ends_idle [] = false
  ends_idle (r ∷ rs) =
      let rest = ends_idle rs in if is_hlt r then true else if is_user r then false else rest

  -- An HLT has been seen and no user-mode record since.
  abbrev pub waiting_after : Bool → A → Bool
  waiting_after waiting r = if is_hlt r then true else if is_user r then false else waiting

  -- A record from an HLT on is dropped if the next HLT comes before a user-mode record.
  abbrev pub keep : Bool → List A → List A
  keep waiting [] = []
  keep waiting (r ∷ rs) =
      let w = waiting_after waiting r in
      let rest = keep w rs in if w && ends_idle rs then rest else r ∷ rest

  ends_idle-keep : (w : Bool) (rs : List A) → ends_idle rs ≡ false → ends_idle (keep w rs) ≡ false
  ends_idle-keep w [] e = refl
  ends_idle-keep w (r ∷ rs) e = ground (arith, ends_idle-keep w rs)

  keep-after_idle :
      (w : Bool) (rs : List A)
      → ends_idle rs ≡ true
      → keep w (keep true rs) ≡ keep true (keep true rs)
  keep-after_idle w [] e = refl
  keep-after_idle w (r ∷ rs) e = ground (arith, keep-after_idle w rs)

  pub keep-keep : (w : Bool) (rs : List A) → keep w (keep w rs) ≡ keep w rs
  keep-keep w [] = refl
  keep-keep w (r ∷ rs) = ground (
    arith,
    keep-keep w rs,
    keep-keep true rs,
    keep-keep false rs,
    keep-after_idle w rs,
    ends_idle-keep (waiting_after w r) rs,
  )

module _ {A B : Type 0} (is_hlt is_user : B → Bool) (f : A → B) where
  ends_idle-map :
      (rs : List A)
      → ends_idle is_hlt is_user (map f rs) ≡ ends_idle (λ a. is_hlt (f a)) (λ a. is_user (f a)) rs
  ends_idle-map [] = refl
  ends_idle-map (r ∷ rs) =
      ap (λ rest. if is_hlt (f r) then true else if is_user (f r) then false else rest)
        (ends_idle-map rs)

  pub keep-map :
      (w : Bool) (rs : List A)
      → keep is_hlt is_user w (map f rs)
        ≡ map f (keep (λ a. is_hlt (f a)) (λ a. is_user (f a)) w rs)
  keep-map w [] = refl
  keep-map w (r ∷ rs) = ground (
    arith,
    ends_idle-map rs,
    keep-map (waiting_after (λ a. is_hlt (f a)) (λ a. is_user (f a)) w r) rs,
  )
