-- ===== src/Api/Handlers/Refusals.antt =====
-- The handlers on a version that is none: `Upload` and `Promote` of internal/api/handlers.go, and
-- `GetVersion` and `Download` of the same file.
use artifact_registry_servic.Base.{
  ℕ, String, ◌≡◌, refl, sym, ◌∙◌, ◌==◌, inl, inr, Bool, true, false, Bool-cases, List, [],
  trim_space, ◌⊎◌, if◌then◌else◌,
}
use artifact_registry_servic.Domain.Errors.{
  Error, sentinel, wrapped, other, is, invalid_version, invalid_input, already_exists, not_found,
  no_channel_history, signed_url_unsupported, delivery_not_found, not_dead_letter,
}
use artifact_registry_servic.Exec.{Result, ok, err, ok≢err, Result-cases}
use artifact_registry_servic.World.{World}
use artifact_registry_servic.Platform.{Platform}
use artifact_registry_servic.Storage.{Reader}
use artifact_registry_servic.Registry.Version.{normalize_version}
use artifact_registry_servic.Registry.Version.Grammar.{IsSemver, is_semver_iff}
use artifact_registry_servic.Registry.Version.Normal.{normalize_version_cases}
use artifact_registry_servic.Registry.Identifier.{validate_identifier}
use artifact_registry_servic.Registry.Identifier.Laws.{Answers, validate_identifier-Answers}
use artifact_registry_servic.Registry.Service.{
  UploadRequest, check_upload, upload, promote, find_target, get_version,
}
use artifact_registry_servic.Api.Reply.{Served}
use artifact_registry_servic.Api.Handlers.{
  Handler, Fresh, Form, upload_reply, upload_meta, upload_file, handle_upload, promote_reply,
  handle_promote,
}
use artifact_registry_servic.Api.Reads.{handle_get_version, handle_download}

-- The answer has this status, no delivery starts, and the state is the one before.
abbrev pub IsRefusal : ℕ → World → Served → Type 0
IsRefusal status w s = (s.0.status ≡ status) × (s.1 ≡ []) × (s.2 ≡ w)

no_version :
    (v : String) → ¬ IsSemver (trim_space v) → normalize_version v ≡ err (sentinel invalid_version)
no_version v h = elim (normalize_version_cases v) [
  | inl (match, _) ↦ absurd (h ((is_semver_iff (trim_space v)).0 match))
  | inr (_, e) ↦ e
]

-- What `Upload` answers with 400.
abbrev IsBad : Error → Type 0
IsBad e =
    (is e already_exists ≡ false) × ((is e invalid_version ≡ true) ⊎ (is e invalid_input ≡ true))

invalid_input-IsBad : (e : Error) → is e invalid_input ≡ true → IsBad e
invalid_input-IsBad (sentinel invalid_input) h = (refl, inr h)
invalid_input-IsBad (sentinel not_found) h = cc
invalid_input-IsBad (sentinel already_exists) h = cc
invalid_input-IsBad (sentinel invalid_version) h = cc
invalid_input-IsBad (sentinel no_channel_history) h = cc
invalid_input-IsBad (sentinel signed_url_unsupported) h = cc
invalid_input-IsBad (sentinel delivery_not_found) h = cc
invalid_input-IsBad (sentinel not_dead_letter) h = cc
invalid_input-IsBad (wrapped before e after) h = invalid_input-IsBad e h
invalid_input-IsBad (other text) h = cc

rejected :
    (b : Bool) (r : Result (Unit {0})) (e : Error)
    → Answers b r
    → r ≡ err e
    → is e invalid_input ≡ true
rejected true r e h k = absurd (ok≢err (sym h ∙ k))
rejected false (ok u) e h k = absurd h
rejected false (err x) e h k = let same : x ≡ e = cc in rw⁻¹ same h

validate_identifier-IsBad :
    (go : Platform) (s : String) (e : Error) → validate_identifier go s ≡ err e → IsBad e
validate_identifier-IsBad go s e h =
    invalid_input-IsBad e (rejected _ _ e (validate_identifier-Answers go s) h)

check_upload-IsBad :
    (go : Platform) (req : UploadRequest) (w : World)
    → normalize_version req.version ≡ err (sentinel invalid_version)
    → (e : Error) × (check_upload go req w ≡ (err e, w)) × IsBad e
unfolding check_upload
check_upload-IsBad go req w bad = elim (Result-cases (validate_identifier go req.type)) [
  | inr (e, t) ↦ rw t (_, refl, validate_identifier-IsBad go req.type e t)
  | inl (_, t) ↦ elim (Result-cases (validate_identifier go req.name)) [
    | inr (e, n) ↦ rw t (rw n (_, refl, validate_identifier-IsBad go req.name e n))
    | inl (_, n) ↦ rw t (rw n (rw bad (_, refl, (refl, inl refl))))
  ]
]

module _ (h : Handler) (fresh : Fresh) where
  upload_reply-IsBad :
      (e : Error) (w : World) → IsBad e → IsRefusal 400 w (upload_reply h fresh (err e) w)
  unfolding upload_reply
  upload_reply-IsBad e w (new, inl bad) = rw new (rw bad (refl, refl, refl))
  upload_reply-IsBad e w (new, inr bad) = rw new (elim (Bool-cases (is e invalid_version)) [
    | inl k ↦ rw k (refl, refl, refl)
    | inr k ↦ rw k (rw bad (refl, refl, refl))
  ])

  upload_file-IsRefusal :
      (id_time now : ℕ) (type name version : String) (file : Result (Reader × String))
      (meta : Result (List (String × String))) (w : World)
      → normalize_version version ≡ err (sentinel invalid_version)
      → IsRefusal 400 w (upload_file h fresh id_time now type name version file meta w)
  unfolding upload_file upload_meta upload
  upload_file-IsRefusal id_time now type name version (err e) meta w bad = (refl, refl, refl)
  upload_file-IsRefusal id_time now type name version (ok file) (err e) w bad = (refl, refl, refl)
  upload_file-IsRefusal id_time now type name version (ok (file, content_type)) (ok meta) w bad =
      let req : UploadRequest = record {
        type = type;
        name = name;
        version = version;
        content_type = if content_type == "" then "application/octet-stream" else content_type;
        metadata = meta;
        file = file;
      } in
      let (e, checked, is_bad) = check_upload-IsBad h.go req w bad in
      rw checked (upload_reply-IsBad e w is_bad)

  handle_upload-IsRefusal :
      (id_time now : ℕ) (type name : String) (form : Form) (w : World)
      → normalize_version form.version ≡ err (sentinel invalid_version)
      → IsRefusal 400 w (handle_upload h fresh id_time now type name (ok form) w)
  unfolding handle_upload
  handle_upload-IsRefusal id_time now type name form w bad =
      elim (Bool-cases (form.version == "")) [
        | inl e ↦ rw e (refl, refl, refl)
        | inr e ↦
            rw e (
              upload_file-IsRefusal id_time now type name form.version form.file form.metadata w
                bad)
      ]

  -- For a version that, without the white space around it, is outside the grammar `IsSemver`:
  -- `Upload` of a form that parses and `Promote` answer 400, `GetVersion` and `Download` answer 500;
  -- none of the four starts a delivery, and each leaves the state as it was, whatever the other parts
  -- of the request.
  pub invalid_version-answers :
      (id_time now : ℕ) (channel type name by : String) (form : Form) (w : World)
      → ¬ IsSemver (trim_space form.version)
      → IsRefusal 400 w (handle_upload h fresh id_time now type name (ok form) w)
        × IsRefusal 400 w (handle_promote h fresh now channel type name form.version by w)
        × IsRefusal 500 w (handle_get_version h type name form.version w)
        × IsRefusal 500 w (handle_download h type name form.version w)
  unfolding handle_promote promote find_target promote_reply handle_get_version handle_download
      get_version
  invalid_version-answers id_time now channel type name by form w outside =
      let bad = no_version form.version outside in
      (
        handle_upload-IsRefusal id_time now type name form w bad,
        rw bad (refl, refl, refl),
        rw bad (refl, refl, refl),
        rw bad (refl, refl, refl),
      )
