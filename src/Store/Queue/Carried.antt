-- ===== src/Store/Queue/Carried.antt =====
-- The list of providers that a completed search carries to its next run
-- (internal/store/repository.go, internal/store/provider_resume.go).
use mathlib.Core.Option.{some-injective, none-ne-some}
use subsyncd.Common.{
  Bool, if◌then◌else◌, some, List, ◌≡◌, none, true, false, ◌&&◌, Option, not, arith, ltb, length,
  sym, ◌∙◌, refl, ap, ℕ, ◌<◌, ◌+◌, ◌==◌, ◌||◌, subst,
}
use subsyncd.Store.Queue.Resume.{
  encode_resume_providers, validate_resume_providers, decode_search_resume, decode_resume_providers,
  Repository, bound_of, ProviderResumeBound, current_resume_scope, distinct, all_in,
}
use subsyncd.Common.Text.{String}
use subsyncd.Store.Queue.Completion.{
  preserved_resume, SearchCompletion, Resume, complete_row, finish_row,
}
use subsyncd.Common.Time.{Instant, is_zero, sub_ge}
use subsyncd.Store.Queue.Rows.{SearchRow}
use subsyncd.Store.Queue.Grants.{resume_of, resume_providers_max_age, is_stale}

if_some : {A : Type 0} (b : Bool) (a c : A) → (if b then some a else none) ≡ some c → a ≡ c
if_some true a c h = some-injective a c h
if_some false a c h = absurd (none-ne-some c h)

encode-same :
    (is_blank : String → Bool) (ps qs : List String)
    → encode_resume_providers is_blank ps ≡ some qs
    → ps ≡ qs
unfolding encode_resume_providers
encode-same is_blank ps qs h = if_some (validate_resume_providers is_blank ps) ps qs h

decode_all :
    (is_blank : String → Bool) (ps qs : List String)
    → decode_resume_providers is_blank (some ps) ≡ some qs
    → ps ≡ qs
unfolding decode_resume_providers
decode_all is_blank ps qs h = if_some (validate_resume_providers is_blank ps) ps qs h

bounded :
    (a b c : Bool) (ps qs : List String)
    → (if a then none else if b then none else if c then some ps else none) ≡ some qs
    → ps ≡ qs
bounded true b c ps qs h = absurd (none-ne-some qs h)
bounded false true c ps qs h = absurd (none-ne-some qs h)
bounded false false c ps qs h = if_some c ps qs h

decode_by :
    (repo : Repository) (o : Option ProviderResumeBound) (d : Option (List String))
    (qs : List String)
    → (elim o [
      | none ↦ d
      | some bound ↦ elim d [
        | none ↦ none
        | some providers ↦
            if ltb bound.json_bytes (repo.json_length providers)
            then none
            else if ltb (length (distinct bound.providers)) (length providers)
            then none
            else if all_in bound.providers providers
            then some providers
            else none
      ]
    ])
      ≡ some qs
    → d ≡ some qs
decode_by repo none d qs h = h
decode_by repo (some bound) none qs h = absurd (none-ne-some qs h)
decode_by repo (some bound) (some ps) qs h = ap some (
    bounded (ltb bound.json_bytes (repo.json_length ps))
      (ltb (length (distinct bound.providers)) (length ps)) (all_in bound.providers ps) ps qs h)

decode-same :
    (repo : Repository) (language : String) (ps qs : List String)
    → decode_search_resume repo language (some ps) ≡ some qs
    → ps ≡ qs
unfolding decode_search_resume
decode-same repo language ps qs h =
    decode_all repo.is_blank ps qs (
      decode_by repo (bound_of repo language) (decode_resume_providers repo.is_blank (some ps)) qs
        h)

-- A completion of a search that is kept for its next run, and the date of its list.
abbrev pub saved_at : Instant → SearchCompletion → Instant
saved_at clock c = if is_zero c.resume_saved_at then clock else c.resume_saved_at

all_kept :
    (a b c d : Bool)
    → a ≡ true
    → b ≡ false
    → c ≡ false
    → d ≡ true
    → (a && not b && not c && d) ≡ true
all_kept a b c d h i j k = ground arith

decoded_by :
    (d : Option (List String)) (x resume : Resume)
    → (elim d [ none ↦ none | some _ ↦ some x ]) ≡ some resume
    → ((ds : List String) × (d ≡ some ds)) × (x ≡ resume)
decoded_by none x resume h = absurd (none-ne-some resume h)
decoded_by (some ds) x resume h = ((ds, refl), some-injective x resume h)

carried_by :
    (repo : Repository) (clock : Instant) (c : SearchCompletion) (language : String)
    (resume : Resume) (encoded : Option (List String))
    → encode_resume_providers repo.is_blank c.resume_providers ≡ encoded
    → (elim encoded [
      | none ↦ none
      | some providers ↦ elim (decode_search_resume repo language (some providers)) [
        | none ↦ none
        | some _ ↦ some (providers, c.resume_route_signature, saved_at clock c)
      ]
    ])
      ≡ some resume
    → (resume ≡ (c.resume_providers, c.resume_route_signature, saved_at clock c))
      × (decode_search_resume repo language (some c.resume_providers) ≡ some c.resume_providers)
carried_by repo clock c language resume none e h = absurd (none-ne-some resume h)
carried_by repo clock c language resume (some qs) e h =
    let same : c.resume_providers ≡ qs = encode-same repo.is_blank c.resume_providers qs e in
    let stored =
      subst
        (λ ps.
          ◌≡◌ {A = Option Resume}
            (elim (decode_search_resume repo language (some ps)) [
              | none ↦ none
              | some _ ↦ some (ps, c.resume_route_signature, saved_at clock c)
            ])
            (some resume))
        (sym same) h in
    let ((ds, d), x) =
      decoded_by (decode_search_resume repo language (some c.resume_providers))
        (c.resume_providers, c.resume_route_signature, saved_at clock c) resume stored in
    (sym x, d ∙ ap some (sym (decode-same repo language c.resume_providers ds d)))

preserved-decodes :
    (repo : Repository) (clock : Instant) (c : SearchCompletion) (r : SearchRow) (resume : Resume)
    → c.preserve_resume ≡ true
    → r.rerun_requested ≡ false
    → current_resume_scope repo r.language r.media_id c.resume_route_signature ≡ true
    → preserved_resume repo clock c false r ≡ some resume
    → (resume ≡ (c.resume_providers, c.resume_route_signature, saved_at clock c))
      × (decode_search_resume repo r.language (some c.resume_providers) ≡ some c.resume_providers)
unfolding preserved_resume
preserved-decodes repo clock c r resume p n s h =
    carried_by repo clock c r.language resume
      (encode_resume_providers repo.is_blank c.resume_providers) refl
      (sym (
          rw
            (all_kept c.preserve_resume false r.rerun_requested
              (current_resume_scope repo r.language r.media_id c.resume_route_signature) p refl n s)
            refl)
        ∙ h)

fresh_list : (at now age : ℕ) → 0 < at → now < at + age → (at == 0 || sub_ge now at age) ≡ false
fresh_list at now age d young = ground arith

neither : (a b : Bool) → a ≡ false → b ≡ true → (a || not b) ≡ false
neither a b h k = ground arith

not_stale :
    (repo : Repository) (now : Instant) (r : SearchRow)
    → (r.resume_saved_at == 0 || sub_ge now r.resume_saved_at resume_providers_max_age) ≡ false
    → current_resume_scope repo r.language r.media_id r.resume_route_signature ≡ true
    → is_stale repo now r ≡ false
unfolding is_stale
not_stale repo now r f s =
    neither (r.resume_saved_at == 0 || sub_ge now r.resume_saved_at resume_providers_max_age)
      (current_resume_scope repo r.language r.media_id r.resume_route_signature) f s

resume_of-fresh :
    (repo : Repository) (now : Instant) (r : SearchRow) (ps : List String)
    → is_stale repo now r ≡ false
    → decode_search_resume repo r.language r.resume_providers ≡ some ps
    → resume_of repo now r ≡ ((ps, r.resume_route_signature, r.resume_saved_at), false)
unfolding resume_of
resume_of-fresh repo now r ps f d = rw (resume_of, f, d, f) refl

-- A list that a completion keeps comes back as it was: when the search is leased again under the
-- same route, at a time at which the list is less than 14 days old, the lease carries the providers,
-- the signature and the date that the completion stored, and the list is not malformed.
pub resume_of-complete_row :
    (repo : Repository) (clock now : Instant) (c : SearchCompletion) (r : SearchRow)
    (resume : Resume)
    → c.preserve_resume ≡ true
    → r.rerun_requested ≡ false
    → current_resume_scope repo r.language r.media_id c.resume_route_signature ≡ true
    → preserved_resume repo clock c false r ≡ some resume
    → 0 < saved_at clock c
    → now < saved_at clock c + resume_providers_max_age
    → resume_of repo now (complete_row c resume r)
      ≡ ((c.resume_providers, c.resume_route_signature, saved_at clock c), false)
unfolding complete_row finish_row
resume_of-complete_row repo clock now c r resume p n s h d young =
    let (same, decodes) = preserved-decodes repo clock c r resume p n s h in
    let kept = finish_row c (c.resume_providers, c.resume_route_signature, saved_at clock c) r in
    let fresh : is_stale repo now kept ≡ false =
      not_stale repo now kept
        (rw p (fresh_list (saved_at clock c) now resume_providers_max_age d young)) (rw p s) in
    let carried : resume_of repo now kept
        ≡ ((c.resume_providers, c.resume_route_signature, saved_at clock c), false) =
      resume_of-fresh repo now kept c.resume_providers fresh (rw p decodes) ∙ rw p refl in
    rw (same, n) carried
