-- ===== src/Policies/LoadCacheAware/Best.antt =====
-- LoadCacheAware::select_with_context picks a worker of the highest score.
use Prim.Native.Nat.{Ordering}
use tokendog.Base.{
  ◌>>=◌, unwrap, ℕ, zero, suc, ◌+◌, ◌≤◌, ◌<◌, ◌≡◌, ◌≢◌, refl, ap, sym, subst, ◌∙◌, inl, inr, String,
  List, [], ◌∷◌, ◌++◌, Option, none, some, arith, ret, length, get_elem?, ◌==◌, false, All,
  All-get_elem?, get_elem?-some, some_eq, eq_or_lt,
}
use tokendog.Base.Env.{Env, gen_range}
use tokendog.Policies.{RequestContext}
use tokendog.Policies.F64.{F64, IsNumber, AtLeast, IsOrdered}
use tokendog.Policies.LoadCacheAware.{
  LoadCacheAware, get_affinity, score, keep_best, scan, select_with_context,
}
use tokendog.Policies.LoadCacheAware.Affinity.{length-get_affinity}

-- `x` is the score of worker `j`.
abbrev pub HasScore : (f : F64) → LoadCacheAware f → List f.Carrier → ℕ → f.Carrier → Type 0
HasScore f self affinity j x =
    (q : ℕ) × (a : f.Carrier) × (get_elem? self.active j ≡ some q)
    × (get_elem? affinity j ≡ some a)
    × (x ≡ score f self a q)

module _ (f : F64) (laws : IsOrdered f) (self : LoadCacheAware f) (affinity : List f.Carrier) where
  Picked : ℕ → f.Carrier → ℕ → Type 0
  Picked i s t = (t < i) × (x : f.Carrier) × HasScore f self affinity t x × AtLeast f x s

  -- The loop invariant after the workers below `i`.
  record Leads (i : ℕ) (s : f.Carrier) (ts : List ℕ) : Type 0 where
    number : IsNumber f s
    above : (j : ℕ) (x : f.Carrier) → j < i → HasScore f self affinity j x → AtLeast f s x
    picked : All (Picked i s) ts
    started : (ts ≡ []) → (i ≡ 0) × (s ≡ f.neg_infinity)

  HasScore-unique :
      (j : ℕ) (x y : f.Carrier)
      → HasScore f self affinity j x
      → HasScore f self affinity j y
      → x ≡ y
  HasScore-unique j x y (q, a, at_q, at_a, e) (p, b, at_p, at_b, d) =
      let same_q : q ≡ p = some_eq (sym at_q ∙ at_p) in
      let same_a : a ≡ b = some_eq (sym at_a ∙ at_b) in
      e ∙ (ap (λ c. score f self c q) same_a ∙ (ap (score f self b) same_q ∙ sym d))

  Picked-later :
      (i : ℕ) (s : f.Carrier) (ts : List ℕ) → All (Picked i s) ts → All (Picked (i + 1) s) ts
  unfolding Picked
  Picked-later i s [] h = tt
  Picked-later i s (t ∷ ts) h =
      ((omega (arith, h.0.0), h.0.1, h.0.2, h.0.3), Picked-later i s ts h.1)

  All-snoc : (P : ℕ → Type 0) (ts : List ℕ) (t : ℕ) → All P ts → P t → All P (ts ++ t ∷ [])
  All-snoc P [] t h p = (p, tt)
  All-snoc P (x ∷ ts) t h p = (h.0, All-snoc P ts t h.1 p)

  snoc-ne-nil : (ts : List ℕ) (t : ℕ) → (ts ++ t ∷ []) ≢ []
  snoc-ne-nil [] t = cc
  snoc-ne-nil (x ∷ ts) t = cc

  AtLeast-refl : (x : f.Carrier) → IsNumber f x → AtLeast f x x
  AtLeast-refl x n = elim (laws.comparable x x n n) [
    | inl h ↦ h
    | inr h ↦ laws.at_least_of_lt x x h
  ]

  module _ (i : ℕ) (s x : f.Carrier) (ts : List ℕ) (here : HasScore f self affinity i x)
      (number_x : IsNumber f x) (leads : Leads i s ts) where
    -- A score `s'` that is at least the old best and at least `x` leads one worker further.
    above_next :
        (s' : f.Carrier)
        → AtLeast f s' s
        → AtLeast f s' x
        → (j : ℕ) (y : f.Carrier) → j < i + 1
        → HasScore f self affinity j y
        → AtLeast f s' y
    above_next s' over_s over_x j y lt has = elim (eq_or_lt j i (omega arith)) [
      | inl same ↦
          let e : x ≡ y =
            HasScore-unique j x y (subst (λ k. HasScore f self affinity k x) same here) has in
          subst (AtLeast f s') e over_x
      | inr less ↦ laws.at_least_trans s' s y over_s (leads.above j y less has)
    ]

    not_first : f.partial_cmp x s ≡ some Ordering.lt → ts ≢ []
    not_first lt empty =
        let (_, at_start) = leads.started empty in
        let low : AtLeast f x s =
          subst (AtLeast f x) (sym at_start) (laws.at_least_neg_infinity x number_x) in
        elim low [ inl gt ↦ ground arith | inr eq ↦ ground arith ]

    keep_best-Leads :
        (c : Option Ordering)
        → f.partial_cmp x s ≡ c
        → (s' : f.Carrier) × (ts' : List ℕ) × (keep_best f c x i (s, ts) ≡ (s', ts'))
          × Leads (i + 1) s' ts'
    unfolding keep_best Picked
    keep_best-Leads (some Ordering.gt) e = (
      x,
      i ∷ [],
      refl,
      record {
        number = number_x;
        above = above_next x (inl e) (AtLeast-refl x number_x);
        picked = ((omega arith, x, here, AtLeast-refl x number_x), tt);
        started = λ empty. absurd (ground arith);
      },
    )
    keep_best-Leads (some Ordering.eq) e = (
      s,
      ts ++ i ∷ [],
      refl,
      record {
        number = leads.number;
        above = above_next s (AtLeast-refl s leads.number) (laws.at_least_of_eq x s e);
        picked =
            All-snoc (Picked (i + 1) s) ts i (Picked-later i s ts leads.picked)
              (omega arith, x, here, inr e);
        started = λ empty. absurd (snoc-ne-nil ts i empty);
      },
    )
    keep_best-Leads (some Ordering.lt) e = (
      s,
      ts,
      refl,
      record {
        number = leads.number;
        above = above_next s (AtLeast-refl s leads.number) (laws.at_least_of_lt x s e);
        picked = Picked-later i s ts leads.picked;
        started = λ empty. absurd (not_first e empty);
      },
    )
    keep_best-Leads none e = absurd (elim (laws.comparable x s number_x leads.number) [
      | inl (inl gt) ↦ ground arith
      | inl (inr eq) ↦ ground arith
      | inr lt ↦ ground arith
    ])

  scan-Leads :
      (k i : ℕ) (s : f.Carrier) (ts : List ℕ)
      → i + k ≤ length self.active
      → i + k ≤ length affinity
      → ((j : ℕ) (x : f.Carrier) → HasScore f self affinity j x → IsNumber f x)
      → Leads i s ts
      → (s' : f.Carrier) × (ts' : List ℕ) × (scan f self affinity k i (s, ts) ≡ ret (s', ts'))
        × Leads (i + k) s' ts'
  unfolding scan
  scan-Leads zero i s ts fits long numbers leads =
      let e : i + 0 ≡ i = omega arith in (s, ts, refl, rw e leads)
  scan-Leads (suc k) i s ts fits long numbers leads =
      let (q, at_q) = get_elem?-some self.active i (omega arith) in
      let (a, at_a) = get_elem?-some affinity i (omega arith) in
      let x = score f self a q in
      let here : HasScore f self affinity i x = (q, a, at_q, at_a, refl) in
      let (s1, ts1, kept, leads1) =
        keep_best-Leads i s x ts here (numbers i x here) leads (f.partial_cmp x s) refl in
      let (s2, ts2, run, leads2) =
        scan-Leads k (i + 1) s1 ts1 (omega arith) (omega arith) numbers leads1 in
      let e : i + suc k ≡ i + 1 + k = omega arith in
      (s2, ts2, rw (at_q, at_a, kept) run, rw e leads2)

  start-Leads : Leads 0 f.neg_infinity []
  start-Leads = record {
    number = laws.number_neg_infinity;
    above = λ j x lt has. absurd (omega arith);
    picked = tt;
    started = λ _. (refl, refl);
  }

-- A draw from a list with an element gives one of its elements.
draw_one :
    (env : Env) (ts : List ℕ)
    → ts ≢ []
    → (k t : ℕ) × ((gen_range env 0 (length ts) >>= λ k. unwrap (get_elem? ts k)) ≡ ret t)
      × (get_elem? ts k ≡ some t)
draw_one env [] some_tied = absurd (some_tied refl)
draw_one env (t ∷ ts) some_tied =
    let n = length (t ∷ ts) in
    let (r, e) = get_elem?-some (t ∷ ts) (env.draw 0 n) (env.draw_lt 0 n (omega arith)) in
    let test : (n == 0) ≡ false = ground arith in (env.draw 0 n, r, rw (test, e), e)

-- With more than one worker, a counter for each and no score that is NaN, the selection returns,
-- and no worker has a higher score than the one it returns.
pub select_with_context_best :
    (f : F64) (laws : IsOrdered f) (env : Env) (self : LoadCacheAware f) (workers : List String)
    (ctx : RequestContext)
    → 1 < length workers
    → length workers ≤ length self.active
    → (let n = length workers in
        let affinity = get_affinity f self.cache_dir env.now ctx.prefix_key ctx.session_id n in
        (j : ℕ) (x : f.Carrier) → HasScore f self affinity j x → IsNumber f x)
    → let n = length workers in
      let affinity = get_affinity f self.cache_dir env.now ctx.prefix_key ctx.session_id n in
      (r : ℕ) × (best : f.Carrier) × (select_with_context f env self workers ctx ≡ ret r)
      × (r < n)
      × HasScore f self affinity r best
      × ((j : ℕ) (x : f.Carrier) → j < n → HasScore f self affinity j x → AtLeast f best x)
unfolding select_with_context Picked
select_with_context_best f laws env self workers ctx many fits numbers =
    let n = length workers in
    let affinity = get_affinity f self.cache_dir env.now ctx.prefix_key ctx.session_id n in
    let long : n ≡ length affinity =
      sym (length-get_affinity f self.cache_dir env.now n ctx.prefix_key ctx.session_id) in
    let (s, ts, run, leads) =
      scan-Leads f laws self affinity n 0 f.neg_infinity [] (omega arith) (omega arith) numbers
        (start-Leads f laws self affinity) in
    let (k, t, drawn, at) =
      draw_one env ts (λ empty. absurd (let zero_n = (leads.started empty).0 in omega arith)) in
    let (t_lt, x, has, over) =
      All-get_elem? (Picked f laws self affinity (0 + n) s) ts k leads.picked at in
    let one : (n == 1) ≡ false = ground arith in
    (
      t,
      x,
      rw (one, run, select_with_context) drawn,
      omega arith,
      has,
      λ j y lt has_y. laws.at_least_trans x s y over (leads.above j y (omega arith) has_y),
    )
