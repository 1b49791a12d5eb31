-- ===== src/Review/Staged.antt =====
-- What node_15 leaves behind: the objects it names are in the bucket.
use decision_center.Base.{
  Bool, true, false, Option, none, some, String, List, [], ◌∷◌, ◌++◌, str_eq, if◌then◌else◌, ◌≡◌,
  ◌⊎◌, ◌∙◌, ap, refl, Bool-cases, inl, inr, All, All-append, is_empty, eq_refl, subst,
}
use decision_center.Base.Dict.{Dict, lookup, insert, lookup-insert, same_refl}
use decision_center.Base.Effect.{Returns, bind-Returns, done-injective}
use decision_center.Review.Store.{
  AuditRow, ObjectName, object_key, World, Outcome, done, raised, backend, pure, throw, modify,
  attempt, ◌>>=◌, ◌>>◌, external, next_fault, init_schema, put_json, put_object, find_audit,
  is_some,
}
use decision_center.Review.SaveAudit.{
  put_bytes, insert_audit, upsert_audit, Draft, Progress, noted, save, save_exports, save_report,
  save_draft, validate, save_artifacts, audit_row, Saved, report_saved, save_row, save_all,
  with_stores, save_audit,
}

-- Every key has an object.
abbrev pub InBucket : Dict ObjectName String → List ObjectName → Type 0
InBucket bucket keys = All (λ key. is_some (lookup key bucket) ≡ true) keys

is_some-if :
    (b : Bool) (body : String) (o : Option String)
    → is_some o ≡ true
    → is_some (if b then some body else o) ≡ true
is_some-if true body o h = refl
is_some-if false body o h = h

InBucket-insert :
    (key : ObjectName) (body : String) (bucket : Dict ObjectName String) (keys : List ObjectName)
    → InBucket bucket keys
    → InBucket (insert key body bucket) keys
InBucket-insert key body bucket [] h = tt
InBucket-insert key body bucket (j ∷ keys) h = (
  ap is_some (lookup-insert key j body bucket) ∙ is_some-if _ body (lookup j bucket) h.0,
  InBucket-insert key body bucket keys h.1,
)

InBucket-new :
    (key : ObjectName) (body : String) (bucket : Dict ObjectName String)
    → InBucket (insert key body bucket) (key ∷ [])
InBucket-new key body bucket =
    (ap is_some (lookup-insert key key body bucket) ∙ rw (same_refl object_key key) refl, tt)

next_fault-cases :
    (faults : List Bool) (w : World)
    → ((next_fault faults w).0 ≡ done tt) ⊎ ((next_fault faults w).0 ≡ raised backend)
next_fault-cases [] w = inl refl
next_fault-cases (true ∷ rest) w = inr refl
next_fault-cases (false ∷ rest) w = inl refl

next_fault-bucket : (faults : List Bool) (w : World) → (next_fault faults w).1.bucket ≡ w.bucket
next_fault-bucket [] w = refl
next_fault-bucket (true ∷ rest) w = refl
next_fault-bucket (false ∷ rest) w = refl

external-cases : (w : World) → ((external w).0 ≡ done tt) ⊎ ((external w).0 ≡ raised backend)
unfolding external
external-cases w = next_fault-cases w.faults w

external-bucket : (w : World) → (external w).1.bucket ≡ w.bucket
unfolding external
external-bucket w = next_fault-bucket w.faults w

-- The bucket holds the keys noted so far.
abbrev pub Held : Progress → World → Type 0
Held progress w = InBucket w.bucket progress.0

second :
    (operation body : String) (key : ObjectName) (progress : Progress) (w : World)
    → Held progress w
    → let out = (external >>= λ _. put_object key body >>= λ _. pure key) w in
      Held (noted operation progress out.0) out.1
unfolding put_object modify pure ◌>>=◌
second operation body key progress w h = elim (external-cases w) [
  | inr e ↦ rw (e, external-bucket w) h
  | inl e ↦
      rw (e, external-bucket w)
        (All-append _ progress.0 (key ∷ []) (InBucket-insert key body w.bucket progress.0 h)
          (InBucket-new key body w.bucket))
]

put_json-Held :
    (operation rid f body : String) (progress : Progress) (w : World)
    → Held progress w
    → Held
        (noted operation progress (put_json "staging" rid f body w).0)
        (put_json "staging" rid f body w).1
unfolding put_json ◌>>=◌
put_json-Held operation rid f body progress w h = elim (external-cases w) [
  | inr e ↦ rw (e, external-bucket w) h
  | inl e ↦ rw e (
      second operation body ("staging", (rid, f)) progress (external w).1
        (rw (external-bucket w) h))
]

save-Held :
    (operation rid f body : String) (progress : Progress) (w : World)
    → Held progress w
    → Returns (save operation (put_json "staging" rid f body) progress) w Held
unfolding save attempt pure ◌>>=◌
save-Held operation rid f body progress w h next e =
    subst (λ p. Held p (put_json "staging" rid f body w).1) (done-injective e)
      (put_json-Held operation rid f body progress w h)

save_exports-Held :
    (rid : String) (exports : List (String × Option String)) (progress : Progress) (w : World)
    → Held progress w
    → Returns (save_exports rid exports progress) w Held
unfolding save_exports put_bytes pure
save_exports-Held rid [] progress w h next e = subst (λ p. Held p w) (done-injective e) h
save_exports-Held rid ((fmt, none) ∷ rest) progress w h next e =
    save_exports-Held rid rest progress w h next e
save_exports-Held rid ((fmt, some body) ∷ rest) progress w h next e =
    bind-Returns _ _ w Held Held (save-Held _ rid _ body progress w h)
      (λ mid v k. save_exports-Held rid rest mid v k) next e

save_report-Held : (d : Draft) (w : World) → Returns (save_report d) w Held
unfolding save_report put_bytes
save_report-Held d w = elim (Bool-cases (is_empty d.exports)) [
  | inl e ↦ rw e (save-Held _ d.request _ d.placeholder ([], []) w tt)
  | inr e ↦ rw e (save_exports-Held d.request d.exports ([], []) w tt)
]

save_draft-Held :
    (rid : String) (report : Option String) (progress : Progress) (w : World)
    → Held progress w
    → Returns (save_draft rid report progress) w Held
unfolding save_draft pure
save_draft-Held rid none progress w h next e = subst (λ p. Held p w) (done-injective e) h
save_draft-Held rid (some body) progress w h next e = save-Held _ rid _ body progress w h next e

validate-Held :
    (valid : Bool) (progress : Progress) (w : World)
    → Held progress w
    → Returns (validate valid) w (λ _ v. Held progress v)
unfolding validate pure throw
validate-Held true progress w h a e = h
validate-Held false progress w h a e = cc

save_artifacts-Held : (d : Draft) (w : World) → Returns (save_artifacts d) w Held
unfolding save_artifacts
save_artifacts-Held d w = bind-Returns _ _ w Held Held (save_report-Held d w) (λ report v0 h0.
    bind-Returns _ _ v0 (λ _ v. Held report v) Held (validate-Held d.record_valid report v0 h0)
      (λ _ v1 h1.
        bind-Returns _ _ v1 Held Held (save-Held _ d.request _ d.evidence_pack report v1 h1)
          (λ pack v2 h2.
            bind-Returns _ _ v2 Held Held (save-Held _ d.request _ d.qg_result pack v2 h2)
              (λ result v3 h3.
                bind-Returns _ _ v3 Held Held (save_draft-Held d.request d.report_json result v3 h3)
                  (λ draft v4 h4. save-Held _ d.request _ (d.audit_record draft.0) draft v4 h4)))))

upsert_audit-find_audit :
    (row : AuditRow) (rows : List AuditRow)
    → find_audit row.request_id (upsert_audit row rows) ≡ some row
unfolding find_audit upsert_audit
upsert_audit-find_audit row [] = rw (eq_refl row.request_id) refl
upsert_audit-find_audit row (r ∷ rows) = elim (Bool-cases (str_eq r.request_id row.request_id)) [
  | inl e ↦ rw (e, eq_refl row.request_id) refl
  | inr e ↦ rw (e, e) (upsert_audit-find_audit row rows)
]

-- The bucket stays, and the row is in the table unless the insertion raised.
abbrev RowWritten : AuditRow → World → Outcome Unit → World → Type 0
RowWritten row w r v =
    (v.bucket ≡ w.bucket) × ((r ≡ raised backend) ⊎ (find_audit row.request_id v.audits ≡ some row))

insert_audit-RowWritten :
    (row : AuditRow) (w : World) → RowWritten row w (insert_audit row w).0 (insert_audit row w).1
unfolding insert_audit modify ◌>>=◌
insert_audit-RowWritten row w = elim (external-cases w) [
  | inr e ↦ rw e (external-bucket w, inl refl)
  | inl e ↦ rw e (external-bucket w, inr (upsert_audit-find_audit row (external w).1.audits))
]

row_step-RowWritten :
    (row : AuditRow) (w : World)
    → RowWritten row w
        ((init_schema >> insert_audit row) w).0
        ((init_schema >> insert_audit row) w).1
unfolding init_schema ◌>>=◌
row_step-RowWritten row w = elim (external-cases w) [
  | inr e ↦ rw e (external-bucket w, inl refl)
  | inl e ↦ rw e (
    (insert_audit-RowWritten row (external w).1).0 ∙ external-bucket w,
    (insert_audit-RowWritten row (external w).1).1,
  )
]

not_empty : (errors : List String) (last : String) → is_empty (errors ++ last ∷ []) ≡ false
not_empty [] last = refl
not_empty (e ∷ errors) last = refl

-- What the node's answer promises of the world that it leaves.
abbrev pub Recorded : Draft → Saved → World → Type 0
Recorded d s v =
    InBucket v.bucket s.artifact_keys
    × ((s.persisted ≡ false) ⊎ (find_audit d.request v.audits ≡ some (audit_row d)))

report_saved-Recorded :
    (d : Draft) (progress : Progress) (w v : World) (r : Outcome Unit)
    → Held progress w
    → RowWritten (audit_row d) w r v
    → Recorded d (report_saved d progress r) v
report_saved-Recorded d progress w v r h (same, inl e) =
    (rw same h, inl (rw e (not_empty progress.1 "postgres_audit")))
report_saved-Recorded d progress w v r h (same, inr found) = (rw same h, inr found)

save_row-Recorded :
    (d : Draft) (progress : Progress) (w : World)
    → Held progress w
    → Returns (save_row d progress) w (Recorded d)
unfolding save_row attempt pure ◌>>=◌
save_row-Recorded d progress w h saved e =
    subst (λ s. Recorded d s ((init_schema >> insert_audit (audit_row d)) w).1) (done-injective e)
      (report_saved-Recorded d progress w ((init_schema >> insert_audit (audit_row d)) w).1
        ((init_schema >> insert_audit (audit_row d)) w).0 h (row_step-RowWritten (audit_row d) w))

with_stores-Recorded :
    (d : Draft) (stores : Outcome Unit) (w : World) → Returns (with_stores d stores) w (Recorded d)
unfolding save_all pure
with_stores-Recorded d (done tt) w saved e =
    bind-Returns _ _ w Held (Recorded d) (save_artifacts-Held d w) (save_row-Recorded d) saved e
with_stores-Recorded d (raised x) w saved e =
    subst (λ s. Recorded d s w) (done-injective e) (tt, inl refl)

-- Whatever calls fail: where the node returns, each object key it reports has an object in the
-- bucket, and where it reports the audit as persisted, the table's row of the request is the
-- staging row of this report, with its gate's status and the hash of its user.
pub save_audit-Recorded :
    (d : Draft) (w : World) (saved : Saved)
    → (save_audit d w).0 ≡ done saved
    → Recorded d saved (save_audit d w).1
unfolding save_audit
save_audit-Recorded d w saved h =
    bind-Returns (attempt external) (with_stores d) w (λ _ _. Unit) (Recorded d) (λ _ _. tt)
      (λ stores u _. with_stores-Recorded d stores u) saved h
