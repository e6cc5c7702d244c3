-- ===== src/Admission/Resolved.antt =====
-- crates/gatewayctl/src/admission.rs, `admit_resolved`: which renders of a repository are checked.
use smallgateway.Prelude.{
  ◌≡◌, ◌≢◌, ◌↔◌, refl, String, Bool, true, false, Option, none, some, List, [], ◌∷◌, ◌++◌, map, All,
}
use smallgateway.Float.Signed.{Signed}
use smallgateway.Waves.{Labels}
use smallgateway.GatewaySets.{GatewaySet, GatewaySets}
use smallgateway.Admission.{
  Candidate, RuleFailure, via, Verdict, admitted, block, failures, AdmissionPolicy, and_then,
  representative_labels, verdict_of, all_failures, admit_yaml, set_failures, canary_failures,
  admit_resolved,
}

-- no verdict, or one that blocks for a reason
abbrev IsProper : Option Verdict → Type 0
IsProper none = Unit
IsProper (some admitted) = Unit
IsProper (some (block [])) = ⊥
IsProper (some (block (f ∷ fs))) = Unit

some_cons : (f : RuleFailure) (fs : List RuleFailure) → ¬ (some (f ∷ fs) ≡ some [])
some_cons f fs e = cc

-- the failures of a verdict and of the later ones
abbrev joined :
    Option Verdict
    → (List RuleFailure → List RuleFailure)
    → Option (List RuleFailure)
    → Option (List RuleFailure)
joined s name rest =
    and_then s (λ verdict. and_then rest (λ later. some (name (failures verdict) ++ later)))

joined_empty :
    (s : Option Verdict) (g : RuleFailure → RuleFailure) (rest : Option (List RuleFailure))
    → IsProper s
    → (joined s (map g) rest ≡ some []) ↔ ((s ≡ some admitted) × (rest ≡ some []))
unfolding failures
joined_empty none g rest h = (λ e. absurd (cc), λ both. absurd (cc))
joined_empty (some admitted) g none h = (λ e. absurd (cc), λ both. absurd (cc))
joined_empty (some admitted) g (some later) h = (λ e. (refl, e), λ both. both.1)
joined_empty (some (block [])) g rest h = absurd h
joined_empty (some (block (f ∷ fs))) g none h = (λ e. absurd (cc), λ both. absurd (cc))
joined_empty (some (block (f ∷ fs))) g (some later) h =
    (λ e. absurd (some_cons (g f) (map g fs ++ later) e), λ both. absurd (cc))

module _ (parse_f64 : String → Option Signed) (holds : String → String → Bool)
    (parse : String → Option Candidate) (p : AdmissionPolicy) where
  -- the render is there and is admitted
  abbrev pub IsAdmitted : Option String → Type 0
  IsAdmitted r = and_then r (admit_yaml parse_f64 holds parse p) ≡ some admitted

  abbrev pub AreAdmitted : (Labels → Option String) → GatewaySets → Type 0
  AreAdmitted render sets =
      All (λ (g : GatewaySet). IsAdmitted (render (representative_labels g.selector.terms []))) sets

  verdict_of-IsProper : (fs : List RuleFailure) → IsProper (some (verdict_of parse_f64 holds fs))
  verdict_of-IsProper [] = tt
  verdict_of-IsProper (f ∷ fs) = tt

  admit_yaml-IsProper : (flat : String) → IsProper (admit_yaml parse_f64 holds parse p flat)
  unfolding admit_yaml
  admit_yaml-IsProper flat =
      elim (parse flat)
        as (λ o. IsProper (elim o [
          | none ↦ none
          | some c ↦ some (verdict_of parse_f64 holds (all_failures parse_f64 holds p flat c))
        ])) [ none ↦ tt | some c ↦ verdict_of-IsProper (all_failures parse_f64 holds p flat c) ]

  render-IsProper : (r : Option String) → IsProper (and_then r (admit_yaml parse_f64 holds parse p))
  render-IsProper none = tt
  render-IsProper (some flat) = admit_yaml-IsProper flat

  sets_empty :
      (render : Labels → Option String) (sets : GatewaySets)
      → (set_failures parse_f64 holds parse p render sets ≡ some []) ↔ AreAdmitted render sets
  unfolding set_failures
  sets_empty render [] = (λ e. tt, λ u. refl)
  sets_empty render (g ∷ sets) =
      let r = render (representative_labels g.selector.terms []) in
      let here =
        joined_empty (and_then r (admit_yaml parse_f64 holds parse p)) (via g.name)
          (set_failures parse_f64 holds parse p render sets) (render-IsProper r) in
      let later = sets_empty render sets in
      (λ e. ((here.0 e).0, later.0 (here.0 e).1), λ h. here.1 (h.0, later.1 h.1))

  canary_empty :
      (canary : Option Bool)
      → (canary_failures parse_f64 holds parse canary ≡ []) ↔ (canary ≢ some false)
  canary_empty none = (λ e. λ x. cc, λ h. refl)
  canary_empty (some true) = (λ e. λ x. cc, λ h. refl)
  canary_empty (some false) = (λ e. absurd (cc), λ h. absurd (h refl))

  all_empty :
      (base : Option Verdict) (stamped : Option (List RuleFailure)) (last : List RuleFailure)
      → IsProper base
      → (and_then base (λ verdict.
            and_then stamped
              (λ fs. some (verdict_of parse_f64 holds (failures verdict ++ fs ++ last))))
          ≡ some admitted)
        ↔ ((base ≡ some admitted) × ((stamped ≡ some []) × (last ≡ [])))
  unfolding failures
  all_empty none stamped last h = (λ e. absurd (cc), λ all. absurd (cc))
  all_empty (some admitted) none last h = (λ e. absurd (cc), λ all. absurd (cc))
  all_empty (some admitted) (some []) [] h = (λ e. (refl, (refl, refl)), λ all. refl)
  all_empty (some admitted) (some []) (f ∷ last) h = (λ e. absurd (cc), λ all. absurd (cc))
  all_empty (some admitted) (some (f ∷ fs)) last h = (λ e. absurd (cc), λ all. absurd (cc))
  all_empty (some (block [])) stamped last h = absurd h
  all_empty (some (block (f ∷ fs))) none last h = (λ e. absurd (cc), λ all. absurd (cc))
  all_empty (some (block (f ∷ fs))) (some gs) last h = (λ e. absurd (cc), λ all. absurd (cc))

  pub admit_resolved-AreAdmitted :
      (base : Option String) (render : Labels → Option String) (sets : GatewaySets)
      (canary : Option Bool)
      → (admit_resolved parse_f64 holds parse p base render sets canary ≡ some admitted)
        ↔ (IsAdmitted base × (AreAdmitted render sets × (canary ≢ some false)))
  unfolding admit_resolved
  admit_resolved-AreAdmitted base render sets canary =
      let whole =
        all_empty (and_then base (admit_yaml parse_f64 holds parse p))
          (set_failures parse_f64 holds parse p render sets)
          (canary_failures parse_f64 holds parse canary) (render-IsProper base) in
      let stamped = sets_empty render sets in
      let policy = canary_empty canary in
      (
        (λ e. let w = whole.0 e in (w.0, (stamped.0 w.1.0, policy.0 w.1.1))),
        λ h. whole.1 (h.0, (stamped.1 h.1.0, policy.1 h.1.1)),
      )
