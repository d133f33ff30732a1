-- ===== src/Server/Stages/Both.antt =====
-- Two requests in flight, one on each stage, and what their ends leave.
use tokendog.Base.{ℕ, ◌≡◌, sym, ap, ◌∙◌, String, some, ret}
use tokendog.Base.Env.{Env}
use tokendog.Policies.{RequestContext, LoadBalancer, IsLawful}
use tokendog.Server.{AppState}
use tokendog.Server.Completion.{
  finish_prefill_request, finish_decode_request, record_prefill_request, record_decode_request,
}
use tokendog.Server.Stages.{prefill_stage, decode_stage, IsGiven, prefill_IsStage, decode_IsStage}
use tokendog.Server.Stages.Requests.{note_put, finish_given}
use tokendog.Server.Stages.Rooms.{
  HasRoom, IsSettled, IsGiven-moved, decode_pool-put_prefill, decode_policy-put_prefill,
  prefill_pool-put_decode, prefill_policy-put_decode, put_prefill-put_decode,
}

module _ {S : Type 0} (lb : LoadBalancer S) (laws : IsLawful lb) (first second : Env)
    (ctx : RequestContext) (self : AppState S) (room_p : HasRoom laws prefill_stage self)
    (room_d : HasRoom laws decode_stage self) where
  -- The two ends return, and with the routings recorded each policy is as its selection left it.
  pub both_finished :
      (s1 s2 : AppState S) (p d : ℕ × String)
      → IsGiven lb prefill_stage first ctx self s1 p
      → IsGiven lb decode_stage second ctx s1 s2 d
      → (prefill_done decode_done : AppState S) × (finish_prefill_request lb s2 p.0
          ≡ ret prefill_done)
        × (finish_decode_request lb (record_prefill_request lb first prefill_done ctx p.0) d.0
            ≡ ret decode_done)
        × IsSettled lb first second ctx self (record_decode_request lb second decode_done ctx d.0)
  both_finished s1 s2 p d g h =
      let P = lb.record_routing first g.chosen ctx p.0 in
      let base = decode_stage.put self (some h.started) in
      let pool1 : decode_stage.pool s1 ≡ decode_stage.pool self =
        ap decode_stage.pool g.after ∙ decode_pool-put_prefill laws self (some g.started) in
      let policy1 : decode_stage.policy s1 ≡ decode_stage.policy self =
        ap decode_stage.policy g.after ∙ decode_policy-put_prefill laws self (some g.started) in
      let g' =
        IsGiven-moved lb prefill_stage first ctx self base s1 p g
          (prefill_pool-put_decode laws self (some h.started))
          (prefill_policy-put_decode laws self (some h.started)) in
      let same2 : s2 ≡ prefill_stage.put base (some g.started) =
        h.after
        ∙ (ap (λ x. decode_stage.put x (some h.started)) g.after
            ∙ sym (put_prefill-put_decode laws self (some h.started) (some g.started))) in
      let prefill_done = prefill_stage.put base (some g.chosen) in
      let ended : finish_prefill_request lb s2 p.0 ≡ ret prefill_done =
        ap (λ x. finish_prefill_request lb x p.0) same2
        ∙ finish_given lb prefill_stage _ _ _ (prefill_IsStage lb) laws first base
            (prefill_stage.put base (some g.started)) ctx p g'
            (room_p g.workers g.before g.served g.policy_before) in
      let mid = prefill_stage.put self (some P) in
      let noted : record_prefill_request lb first prefill_done ctx p.0
          ≡ decode_stage.put mid (some h.started) =
        note_put lb prefill_stage _ _ _ (prefill_IsStage lb) first base g.chosen ctx p.0
        ∙ put_prefill-put_decode laws self (some h.started) (some P) in
      let h' =
        IsGiven-moved lb decode_stage second ctx s1 mid s2 d h
          (decode_pool-put_prefill laws self (some P) ∙ sym pool1)
          (decode_policy-put_prefill laws self (some P) ∙ sym policy1) in
      let decoded =
        ap (λ x. finish_decode_request lb x d.0) noted
        ∙ finish_given lb decode_stage _ _ _ (decode_IsStage lb) laws second mid
            (decode_stage.put mid (some h.started)) ctx d h'
            (room_d h.workers h.before (sym pool1 ∙ h.served) (sym policy1 ∙ h.policy_before)) in
      (
        prefill_done,
        decode_stage.put mid (some h.chosen),
        ended,
        decoded,
        record {
          prefill_worker = p;
          after_prefill = s1;
          prefill = g;
          decode_worker = d;
          before_decode = s1;
          after_decode = s2;
          decode = h;
          same_pool = pool1;
          same_policy = policy1;
          settled = note_put lb decode_stage _ _ _ (decode_IsStage lb) second mid h.chosen ctx d.0;
        },
      )
