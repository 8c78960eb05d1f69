-- ===== src/DriveSync/Subsecond.antt =====
-- A document is stored with the whole seconds of its time, which the next cycle compares with the
-- time that Drive gives.
use mathlib.Core.Path.{subst}
use balvibot.Prelude.{
  ℕ, ◌≡◌, ◌≢◌, refl, sym, ap, ◌∙◌, inl, inr, Bool, true, false, not, Bool-cases, Option, none, some,
  Str, eqs, arith, if◌then◌else◌,
}
use balvibot.Errors.{Error, Result, ok, err, error_text, is_not_found, is_not_found_or_forbidden}
use balvibot.Store.Schema.{SourceRow, DocRow}
use balvibot.Store.Exec.{World, Exec, pure, fail, or_else}
use balvibot.Store.Reads.{Reads, read_row_cases, Reads-or_else, or_else-ok, or_else-err}
use balvibot.Store.Docs.{
  Time, Doc, scan_doc, doc_with_id, get_doc_by_id, mark_doc_stale, mark_doc_error, upsert_doc,
}
use balvibot.DriveSync.{
  Stats, File, Drive, is_unchanged, existing_doc, stale, failed, doc_of, exported, compared, timed,
  process_doc, mime_doc,
}

-- The call succeeds, with a value of which `Q` holds.
abbrev Yields : {A : Type 0} → (A → Type 0) → Exec A → World → Type 0
Yields {A} Q m w = (a : A) × (w' : World) × (m w ≡ (ok a, w')) × Q a

Yields-pure : {A : Type 0} (Q : A → Type 0) (a : A) (w : World) → Q a → Yields Q (pure a) w
unfolding pure
Yields-pure Q a w q = (a, w, refl, q)

module _ {A B : Type 0} (Q : B → Type 0) (m : Exec A) (h : Error → Exec B) (k : A → Exec B)
    (w : World) where
  Yields-after :
      (r : Result A × World)
      → m w ≡ r
      → ((e : Error) (w' : World) → m w ≡ (err e, w') → Yields Q (h e) w')
      → ((a : A) (w' : World) → m w ≡ (ok a, w') → Yields Q (k a) w')
      → Yields Q (or_else m h k) w
  Yields-after (ok a, w') e yh yk =
      let (b, w'', q, p) = yk a w' e in (b, w'', or_else-ok m h k w w' a e ∙ q, p)
  Yields-after (err x, w') e yh yk =
      let (b, w'', q, p) = yh x w' e in (b, w'', or_else-err m h k w w' x e ∙ q, p)

  Yields-or_else :
      ((e : Error) (w' : World) → m w ≡ (err e, w') → Yields Q (h e) w')
      → ((a : A) (w' : World) → m w ≡ (ok a, w') → Yields Q (k a) w')
      → Yields Q (or_else m h k) w
  Yields-or_else yh yk = Yields-after (m w) refl yh yk

Yields-if :
    {A : Type 0} (Q : A → Type 0) (b : Bool) (m n : Exec A) (w : World)
    → Yields Q m w
    → Yields Q n w
    → Yields Q (if b then m else n) w
Yields-if Q true m n w p q = p
Yields-if Q false m n w p q = q

-- What is read back has no part of a second.
IsWhole : Option Doc → Type 0
IsWhole none = Unit
IsWhole (some d) = d.modified_at.nanos ≡ 0

existing_doc_cases : (id : Str) (w : World) → Reads IsWhole w (existing_doc id w)
unfolding existing_doc get_doc_by_id pure fail IsWhole
existing_doc_cases id w =
    Reads-or_else (λ d. d.modified_at.nanos ≡ 0) IsWhole (get_doc_by_id id) w _ _
      (weaken (read_row_cases (doc_with_id id) scan_doc w))
      (λ e rest. elim (Bool-cases (is_not_found e)) [
        | inl h ↦ rw h (inr (none, rest, tt, refl))
        | inr h ↦ rw h (inl (e, rest, refl))
      ])
      (λ d rest p. inr (some d, rest, p, refl))
  where
    weaken :
        Reads
          (λ d. (r : DocRow) × (doc_with_id id w.db ≡ some r) × (d ≡ scan_doc r))
          w
          (get_doc_by_id id w)
        → Reads (λ (d : Doc). d.modified_at.nanos ≡ 0) w (get_doc_by_id id w)
    weaken (inl p) = inl p
    weaken (inr (d, rest, (r, found, same), q)) =
        inr (d, rest, rw same (unfold scan_doc in refl), q)

read-IsWhole :
    (id : Str) (w w' : World) (o : Option Doc) → existing_doc id w ≡ (ok o, w') → IsWhole o
read-IsWhole id w w' o e = elim (existing_doc_cases id w) [
  | inl (x, rest, q) ↦
      absurd (mismatch x o (ap (λ (r : Result (Option Doc) × World). r.0) (sym q ∙ e)))
  | inr (a, rest, p, q) ↦
      subst IsWhole (ap (λ (r : Result (Option Doc) × World). value r.0) (sym q ∙ e)) p
]
  where
    value : Result (Option Doc) → Option Doc
    value (ok v) = v
    value (err x) = none

    mismatch : (x : Error) (o : Option Doc) → ¬ (Result.err x ≡ ok o)
    mismatch x o h = cc

whole_differs : (o : Option Doc) (t : Time) → IsWhole o → t.nanos ≢ 0 → is_unchanged o t ≡ false
unfolding IsWhole
whole_differs none t w n = refl
whole_differs (some d) t w n = ground (arith, w, n)

module _ (drive : Drive) (grantee_id : Str) (src : SourceRow) (cycle : ℕ) (f : File)
    (stats : Stats) where
  abbrev Uncounted : Stats → Type 0
  Uncounted s = s.docs_unchanged ≡ stats.docs_unchanged

  flagged :
      (m : Exec (Unit {0})) (s : Stats) (w : World)
      → Uncounted s
      → Yields Uncounted (or_else m (λ _. pure s) (λ _. pure s)) w
  flagged m s w u =
      Yields-or_else Uncounted m (λ _. pure s) (λ _. pure s) w
        (λ e w' _. Yields-pure Uncounted s w' u) (λ a w' _. Yields-pure Uncounted s w' u)

  stale-Uncounted :
      (e : Error) (o : Option Doc) (w : World)
      → Yields Uncounted (stale drive grantee_id src cycle f stats e o) w
  stale-Uncounted e none w = Yields-pure Uncounted _ w refl
  stale-Uncounted e (some d) w = flagged (mark_doc_stale f.id (error_text e)) _ w refl

  failed-Uncounted :
      (e : Error) (o : Option Doc) (w : World)
      → Yields Uncounted (failed drive grantee_id src cycle f stats e o) w
  failed-Uncounted e none w = Yields-pure Uncounted _ w refl
  failed-Uncounted e (some d) w = flagged (mark_doc_error f.id (error_text e)) _ w refl

  exported-Uncounted :
      (t : Time) (o : Option Doc) (r : Result Str) (w : World)
      → Yields Uncounted (exported drive grantee_id src cycle f stats t o r) w
  unfolding exported
  exported-Uncounted t o (err e) w =
      Yields-if Uncounted (is_not_found_or_forbidden e) _ _ w (stale-Uncounted e o w)
        (failed-Uncounted e o w)
  exported-Uncounted t o (ok markdown) w =
      Yields-or_else Uncounted
        (upsert_doc (doc_of drive grantee_id src cycle f stats t markdown) cycle) _ _ w
        (λ e w' _. Yields-pure Uncounted _ w' refl) (λ a w' _. Yields-pure Uncounted _ w' refl)

  compared-Uncounted :
      (t : Time) (o : Option Doc) (w : World)
      → is_unchanged o t ≡ false
      → Yields Uncounted (compared drive grantee_id src cycle f stats t o) w
  unfolding compared
  compared-Uncounted t o w h = rw h (exported-Uncounted t o (drive.export_markdown f.id) w)

  timed-Uncounted :
      (t : Time) (w : World)
      → t.nanos ≢ 0
      → Yields Uncounted (timed drive grantee_id src cycle f stats (ok t)) w
  unfolding timed
  timed-Uncounted t w n =
      Yields-or_else Uncounted (existing_doc f.id) _ (compared drive grantee_id src cycle f stats t)
        w (λ e w' _. Yields-pure Uncounted _ w' refl)
        (λ o w' e. compared-Uncounted t o w' (whole_differs o t (read-IsWhole f.id w w' o e) n))

  -- A file whose time has a part of a second is never found to be unchanged, whatever stands in
  -- the tables, also straight after it was synced: processDoc returns, and the counter of unchanged
  -- documents is as before.
  pub subsecond_never_unchanged :
      (t : Time) (w : World)
      → drive.parse_drive_time f.modified_time ≡ ok t
      → t.nanos ≢ 0
      → (s : Stats) × (w' : World) × (process_doc drive grantee_id src cycle f stats w ≡ (ok s, w'))
        × (s.docs_unchanged ≡ stats.docs_unchanged)
  unfolding process_doc
  subsecond_never_unchanged t w parsed n = rw parsed (
      Yields-if Uncounted (not (eqs f.mime_type mime_doc)) _ _ w (Yields-pure Uncounted _ w refl)
        (timed-Uncounted t w n))
