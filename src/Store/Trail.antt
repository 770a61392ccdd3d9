-- ===== src/Store/Trail.antt =====
-- src/operations/operations-state.ts: the audit table and the table of report revisions are only appended to.
use real_ming.Base.{◌≡◌, refl, ap, ◌∙◌, List, [], ◌∷◌, ◌++◌}
use real_ming.Contracts.Records.{AuditEvent}
use real_ming.Store.Database.{Database}
use real_ming.Store.Steps.{
  Step, aside, noted, annotated, moved, created, landed, filed, Steps, here, next,
}

-- One list begins with another.
abbrev pub Extends {ℓ} : {A : Type ℓ} → List A → List A → Type ℓ
Extends {A = A} xs ys = (rest : List A) × (ys ≡ xs ++ rest)

append_nil {ℓ} : {A : Type ℓ} (xs : List A) → xs ≡ xs ++ []
append_nil [] = refl
append_nil (x ∷ xs) = ap (λ ys. x ∷ ys) (append_nil xs)

append_assoc {ℓ} : {A : Type ℓ} (xs ys zs : List A) → (xs ++ ys) ++ zs ≡ xs ++ (ys ++ zs)
append_assoc [] ys zs = refl
append_assoc (x ∷ xs) ys zs = ap (λ l. x ∷ l) (append_assoc xs ys zs)

Extends-same {ℓ} : {A : Type ℓ} (xs ys : List A) → ys ≡ xs → Extends xs ys
Extends-same xs ys e = ([], e ∙ append_nil xs)

Extends-trans {ℓ} : {A : Type ℓ} (xs ys zs : List A) → Extends xs ys → Extends ys zs → Extends xs zs
Extends-trans xs ys zs (r, e) (s, f) = (r ++ s, f ∙ ap (λ l. l ++ s) e ∙ append_assoc xs r s)

-- What is written to the audit trail and to the revisions stays as it is.
pub record Appended (t u : Database) : Type 0 where
  pub events : Extends t.audit_events u.audit_events
  pub revisions : Extends t.outcome_report_revisions u.outcome_report_revisions

one_event :
    (t u : Database) (e : AuditEvent)
    → u.audit_events ≡ t.audit_events ++ (e ∷ [])
    → u.outcome_report_revisions ≡ t.outcome_report_revisions
    → Appended t u
one_event t u e events revisions = record {
  events = (e ∷ [], events);
  revisions = Extends-same _ _ revisions;
}

Step-Appended : {t u : Database} → Step t u → Appended t u
Step-Appended (aside (_, events, _, revisions)) = record {
  events = Extends-same _ _ events;
  revisions = Extends-same _ _ revisions;
}
Step-Appended {t} {u} (noted id kind at details silent e) =
    one_event t u _ (ap (λ d. d.audit_events) e) (ap (λ d. d.outcome_report_revisions) e)
Step-Appended (annotated id f same e) = record {
  events = Extends-same _ _ (ap (λ d. d.audit_events) e);
  revisions = Extends-same _ _ (ap (λ d. d.outcome_report_revisions) e);
}
Step-Appended {t} {u} (moved id state event at details current there known guarded e) =
    one_event t u _ (ap (λ d. d.audit_events) e) (ap (λ d. d.outcome_report_revisions) e)
Step-Appended {t} {u} (created row at details captures new_id new_command e) =
    one_event t u _ (ap (λ d. d.audit_events) e) (ap (λ d. d.outcome_report_revisions) e)
Step-Appended {t} {u} (landed id state event at details tells guarded e) =
    one_event t u _ (ap (λ d. d.audit_events) e) (ap (λ d. d.outcome_report_revisions) e)
Step-Appended {t} {u} (filed report fresh e) = record {
  events = Extends-same _ _ (ap (λ d. d.audit_events) e);
  revisions = (report ∷ [], ap (λ d. d.outcome_report_revisions) e);
}

pub Steps-Appended : {t u : Database} → Steps t u → Appended t u
Steps-Appended here = record { events = Extends-same _ _ refl; revisions = Extends-same _ _ refl }
Steps-Appended (next before s) =
    let a = Steps-Appended before in
    let b = Step-Appended s in
    record {
      events = Extends-trans _ _ _ a.events b.events;
      revisions = Extends-trans _ _ _ a.revisions b.revisions;
    }
