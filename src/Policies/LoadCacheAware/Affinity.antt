-- ===== src/Policies/LoadCacheAware/Affinity.antt =====
-- What the cache directory of LoadCacheAware remembers.
use tokendog.Base.{
  ℕ, ◌-◌, ◌<◌, ◌≡◌, refl, ◌⊎◌, inl, inr, String, List, Option, none, some, arith, length, get_elem?,
  set, replicate, ◌==◌, if◌then◌else◌, true, false, Bool-cases, ◌∙◌, length-set, length-replicate,
  get_elem?-replicate, get_elem?-set_self, get_elem?-set_ne,
}
use tokendog.Base.Map.{lookup, lookup-insert}
use tokendog.Base.Text.{eq_refl}
use tokendog.Policies.F64.{F64}
use tokendog.Policies.LoadCacheAware.{CacheDirectory, is_usable, mark, record_entry, get_affinity}

length-mark {ℓ} :
    {A : Type ℓ} (self : CacheDirectory) (now n : ℕ) (s : A) (entry : Option (ℕ × ℕ))
    (scores : List A)
    → length (mark self now n s entry scores) ≡ length scores
unfolding mark
length-mark self now n s none scores = refl
length-mark self now n s (some (idx, ts)) scores = elim (Bool-cases (is_usable self now n idx ts)) [
  | inl use_it ↦ rw use_it (length-set scores idx s)
  | inr skip ↦ rw skip
]

module _ (f : F64) (self : CacheDirectory) (now n : ℕ) (prefix_key session_id : String) where
  pub length-get_affinity : length (get_affinity f self now prefix_key session_id n) ≡ n
  unfolding get_affinity
  length-get_affinity =
      length-mark self now n _ (lookup session_id self.session_map) _
      ∙ (length-mark self now n _ (lookup prefix_key self.prefix_map) _
          ∙ length-replicate n (f.decimal 0 1))

  -- Once a routing is recorded, and as long as it is not stale, the same prefix and session give
  -- the recorded worker the score of a session match, and every other worker none.
  pub get_affinity-record_entry :
      (at idx j : ℕ)
      → idx < n
      → j < n
      → (self.staleness ≡ 0) ⊎ (now - at < self.staleness)
      → get_elem?
          (get_affinity f
            (record_entry self at prefix_key session_id idx)
            now
            prefix_key
            session_id
            n)
          j
        ≡ some (if j == idx then f.decimal 5 1 else f.decimal 0 1)
  unfolding get_affinity record_entry
  get_affinity-record_entry at idx j idx_lt j_lt fresh =
      rw
        (
          lookup-insert session_id session_id (idx, at) self.session_map,
          lookup-insert prefix_key prefix_key (idx, at) self.prefix_map,
          eq_refl session_id,
          eq_refl prefix_key,
          get_affinity,
        )
        (rw usable (written (Bool-cases (j == idx))))
    where
      usable : is_usable self now n idx at ≡ true
      usable = ground arith

      zeros : List f.Carrier
      zeros = replicate n (f.decimal 0 1)

      once : List f.Carrier
      once = set zeros idx (f.decimal 1 0)

      written :
          ((j == idx) ≡ true) ⊎ ((j == idx) ≡ false)
          → get_elem? (set once idx (f.decimal 5 1)) j
            ≡ some (if j == idx then f.decimal 5 1 else f.decimal 0 1)
      written (inl same) =
          let e : j ≡ idx = ground arith in
          let long : length once ≡ n = length-set zeros idx _ ∙ length-replicate n _ in
          rw (same, e) (get_elem?-set_self once idx _ (omega arith))
      written (inr other) =
          let ne : idx ≡ j → ⊥ = ground arith in
          rw other (
            get_elem?-set_ne once idx j _ ne
            ∙ (get_elem?-set_ne zeros idx j _ ne ∙ get_elem?-replicate n j (f.decimal 0 1) j_lt))
