-- ===== src/Review/Publishing.antt =====
-- What publishing can do to the audit table and to the bucket.
use decision_center.Base.{
  false, Option, none, some, String, List, [], ◌∷◌, ◌≡◌, ◌≢◌, ◌⊎◌, inl, inr, refl, sym, ◌∙◌,
  Bool-cases, arith, eq_iff, str_eq,
}
use decision_center.Base.Dict.{lookup, lookup-insert, string_key}
use decision_center.Review.Store.{
  Outcome, done, raised, final, AuditRow, Decision, ObjectName, World, ◌>>=◌, external, gets,
  modify, pure, throw, attempt, find_audit, set_review_state, update_review_state, get_audit,
  get_review_decisions, init_schema, object_exists, put_object, write_copy, copy_object,
  copy_to_final, put_json, object_key,
}
use decision_center.Review.Rows.{state_of}
use decision_center.Review.Kept.{
  StateRelation, Keeps, Keeps-pure, Keeps-throw, Keeps-gets, Keeps-attempt, Keeps-external,
  Keeps-bind,
}
use decision_center.Review.Publish.{
  log_name, copy_all, note_copy, write_log, publish_artifacts, publish_or_stop, publish_read,
  publish, read_review, stop_for, PublishError,
}

-- Every final artifact but the approval log keeps its content.
abbrev pub KeepsFinal : World → World → Type 0
KeepsFinal w w' =
    (k f body : String)
    → f ≢ log_name
    → lookup ("final", (k, f)) w.bucket ≡ some body
    → lookup ("final", (k, f)) w'.bucket ≡ some body

-- A name that the bucket lacks is not the name of a stored object.
no_clash :
    (name other : ObjectName) (w : World) {body : String}
    → lookup name w.bucket ≡ none
    → lookup other w.bucket ≡ some body
    → object_key.same name other ≡ false
no_clash name other w new h = elim (Bool-cases (object_key.same name other)) [
  | inl e ↦ let same = (object_key.same_iff name other).0 e in cc (same, new, h)
  | inr e ↦ e
]

put_new :
    (name : ObjectName) (body : String) (w : World)
    → lookup name w.bucket ≡ none
    → KeepsFinal w (put_object name body w).1
unfolding put_object modify
put_new name body w new k f kept other h =
    rw (lookup-insert name ("final", (k, f)) body w.bucket, no_clash name ("final", (k, f)) w new h)
      h

-- What publishing does before it moves the state: no row changes.
abbrev pub Publishes : World → World → Type 0
Publishes w w' = KeepsFinal w w' × (w'.audits ≡ w.audits)

abbrev pub publishes : StateRelation
publishes = record {
  Rel = Publishes;
  at_rest = λ w. (λ k f body other h. h, refl);
  then_rel =
      λ u v w h g. (λ k f body other x. g.0 k f body other (h.0 k f body other x), g.1 ∙ h.1);
  spends = λ w faults. (λ k f body other h. h, refl);
}

put_log : (rid body : String) → Keeps publishes (put_object ("final", (rid, log_name)) body)
unfolding put_object modify
put_log rid body = record {
  from = λ w. (
    λ k f kept other h.
        rw (lookup-insert ("final", (rid, log_name)) ("final", (k, f)) body w.bucket)
          (elim (Bool-cases (str_eq log_name f)) [
            | inl e ↦ absurd (other (sym ((eq_iff log_name f).0 e)))
            | inr e ↦ ground (arith, e, h)
          ]),
    refl,
  );
}

-- The copy of one artifact, once its destination is known to be free.
write_copy-Publishes :
    (name : ObjectName) (found : Option String) (w : World)
    → lookup name w.bucket ≡ none
    → Publishes w (write_copy name found w).1
unfolding write_copy throw put_object modify
write_copy-Publishes name none w new = publishes.at_rest w
write_copy-Publishes name (some body) w new =
    (unfold put_object modify in put_new name body w new, refl)

pub copy_to_final-Keeps : (rid filename : String) → Keeps publishes (copy_to_final rid filename)
unfolding copy_to_final object_exists copy_object external gets pure throw ◌>>=◌
copy_to_final-Keeps rid filename = record { from = λ w. grind (arith, write_copy-Publishes) }

ruleset kept_rules = (
  Keeps-pure, Keeps-throw, Keeps-gets, Keeps-attempt, Keeps-external, Keeps-bind,
  copy_to_final-Keeps, put_log,
)

copy_all-Keeps :
    (rid : String) (names : List String) (acc : List ObjectName × List PublishError)
    → Keeps publishes (copy_all rid names acc)
unfolding copy_all
copy_all-Keeps rid [] acc = search kept_rules
copy_all-Keeps rid (name ∷ rest) acc =
    Keeps-bind publishes _ _ (search kept_rules)
      (λ copied. copy_all-Keeps rid rest (note_copy rid name copied acc))

copy_all-rel :
    (rid : String) (names : List String) (acc : List ObjectName × List PublishError) (w : World)
    → Publishes w (copy_all rid names acc w).1
copy_all-rel rid names acc w = (copy_all-Keeps rid names acc).from w

put_json-Keeps : (rid body : String) → Keeps publishes (put_json "final" rid log_name body)
unfolding put_json
put_json-Keeps rid body = search kept_rules

-- Publishing keeps the final artifacts, and moves at most the state of its own report to `final`.
abbrev pub Moved : String → Type 0 → World → World → Type 0
Moved rid Guard w w' =
    KeepsFinal w w'
    × ((w'.audits ≡ w.audits) ⊎ ((w'.audits ≡ set_review_state rid final w.audits) × Guard))

module _ (render_log : AuditRow → Decision → List ObjectName → String) where
  write_log-rel :
      (rid : String) (audit : AuditRow) (decisions : List Decision)
      (acc : List ObjectName × List PublishError) (w : World)
      → Publishes w (write_log render_log rid audit decisions acc w).1
  unfolding write_log
  write_log-rel rid audit [] acc w = (Keeps-pure publishes acc).from w
  write_log-rel rid audit (d ∷ ds) acc w =
      (Keeps-bind publishes _ _
          (Keeps-attempt publishes _ (put_json-Keeps rid (render_log audit d acc.0)))
          (λ r. Keeps-pure publishes _)).from
        w

  pub publish_artifacts-Moved :
      (rid : String) (audit : AuditRow) (decisions : List Decision) (w : World)
      → Moved rid Unit w (publish_artifacts render_log rid audit decisions w).1
  unfolding publish_artifacts attempt update_review_state external modify pure ◌>>=◌
  publish_artifacts-Moved rid audit decisions w = grind (arith, copy_all-rel, write_log-rel)

  -- What a read of the row and the decisions found.
  abbrev WasRead : String → World → Outcome (Option AuditRow × List Decision) → Type 0
  WasRead rid w (raised e) = Unit
  WasRead rid w (done (row, decisions)) = find_audit rid w.audits ≡ row

  read_review-WasRead :
      (rid : String) (w : World)
      → Publishes w (read_review rid w).1 × WasRead rid (read_review rid w).1 (read_review rid w).0
  unfolding read_review init_schema get_audit get_review_decisions external gets pure ◌>>=◌
  read_review-WasRead rid w = grind arith

  publish_read-Moved :
      (rid : String) (w : World) (o : Outcome (Option AuditRow × List Decision))
      → WasRead rid w o
      → Moved rid (stop_for (state_of rid w.audits) ≡ none) w (publish_read render_log rid o w).1
  unfolding publish_read publish_or_stop pure
  publish_read-Moved rid w (raised e) read = (λ k f body other h. h, inl refl)
  publish_read-Moved rid w (done (none, ds)) read = (λ k f body other h. h, inl refl)
  publish_read-Moved rid w (done (some row, ds)) read =
      ground (arith, publish_artifacts-Moved rid row ds w)

  -- Publishing writes only where the row that it read is approved or final.
  pub publish-Moved :
      (rid : String) (w : World)
      → Moved rid (stop_for (state_of rid w.audits) ≡ none) w (publish render_log rid w).1
  unfolding publish attempt ◌>>=◌
  publish-Moved rid w =
      let (kept, read) = read_review-WasRead rid w in
      let (o, v) = read_review rid w in
      let (final_kept, moved) = publish_read-Moved rid v o read in
      (λ k f body other h. final_kept k f body other (kept.0 k f body other h), rw kept.1 at moved)
