-- ===== src/Update/Orchestrator/Unsigned.antt =====
-- Runs of the update where BMT_OTA_ALLOW_UNSIGNED is not true.
use bmt_ai_os.Prelude.{
  ℕ, String, ◌≡◌, ◌⊎◌, refl, ap, ◌∙◌, inl, inr, Bool, true, false, Bool-cases, Option, Option-cases,
  none, some, List, str_eq, if◌then◌else◌, Result, Result-cases, ok, err, arith,
}
use bmt_ai_os.Ota.State.{Json}
use bmt_ai_os.Ota.Verify.{enforce_signature}
use bmt_ai_os.Ota.Engine.{
  Device, OtaError, permission_error, apply_update, get_current_slot, is_slot,
}
use bmt_ai_os.Update.Orchestrator.{
  StageResult, UpdateResult, UpdateInfo, UpdateOrchestrator, Environment, success, os_stage,
  install, stage_os_update, finish, run, request, standby_of,
}
use bmt_ai_os.Update.Orchestrator.Installs.{
  stage_os_update-eq, finish_keeps, finish-new_version, finish-success,
}

module _ (digest : List ℕ → String) (str_of : Json → String) (int_of : String → Option ℕ) where
  request_unsigned :
      (e : Environment) (slot : String) (d : Device)
      → e.allow_unsigned ≡ false
      → apply_update digest str_of int_of (request e slot) d
        ≡ (d, if e.image_exists then err permission_error else ok false)
  unfolding apply_update request standby_of is_slot enforce_signature
  request_unsigned e slot d n = elim (Bool-cases (str_eq slot "a")) [
    | inl k ↦ elim (Bool-cases e.image_exists) [
      | inl x ↦ rw (k, x, n) refl
      | inr x ↦ rw (k, x) refl
    ]
    | inr k ↦ elim (Bool-cases e.image_exists) [
      | inl x ↦ rw (k, x, n) refl
      | inr x ↦ rw (k, x) refl
    ]
  ]

  chosen :
      (b c : Bool) (x y : Result OtaError Bool)
      → b ≡ c
      → (if b then x else y) ≡ (if c then x else y)
  chosen b c x y e = rw e refl

  -- What the system stage gives: an exception, or a stage that failed.
  abbrev IsFailed : Result OtaError StageResult → Type 0
  IsFailed (err x) = Unit {0}
  IsFailed (ok s) = (s.success ≡ false) × (s.skipped ≡ false)

  install_unsigned :
      (e : Environment) (info : UpdateInfo) (slot : String) (u : UpdateOrchestrator)
      → e.allow_unsigned ≡ false
      → ((install digest str_of int_of e info slot u).0.device ≡ u.device)
        × IsFailed (install digest str_of int_of e info slot u).1
  unfolding install os_stage
  install_unsigned e info slot u n =
      let q = request_unsigned e slot u.device n in
      let kept : (apply_update digest str_of int_of (request e slot) u.device).0 ≡ u.device =
        ap (λ (x : Device × Result OtaError Bool). x.0) q in
      let given = ap (λ (x : Device × Result OtaError Bool). x.1) q in
      elim (Bool-cases (e.download info.url info.sha256)) [
        | inr d ↦ rw d (refl, (refl, refl))
        | inl d ↦ elim (Bool-cases e.image_exists) [
          | inl x ↦
              let raised : (apply_update digest str_of int_of (request e slot) u.device).1
                  ≡ err permission_error =
                given ∙ chosen e.image_exists true (err permission_error) (ok false) x in
              rw (d, raised) (kept, tt)
          | inr x ↦
              let failed : (apply_update digest str_of int_of (request e slot) u.device).1
                  ≡ ok false =
                given ∙ chosen e.image_exists false (err permission_error) (ok false) x in
              rw (d, failed) (kept, (refl, refl))
        ]
      ]

  stage_os_update_unsigned :
      (e : Environment) (u : UpdateOrchestrator)
      → e.allow_unsigned ≡ false
      → ((stage_os_update digest str_of int_of e u).0.device ≡ u.device)
        × (((e.info ≡ none)
              × ((stage_os_update digest str_of int_of e u).1
                  ≡ ok (record { name = "os_update"; success = true; skipped = true })))
            ⊎ IsFailed (stage_os_update digest str_of int_of e u).1)
  unfolding stage_os_update
  stage_os_update_unsigned e u n = elim (Option-cases e.info) [
    | inl i ↦ rw (stage_os_update, i) (refl, inl (refl, refl))
    | inr (info, i) ↦
        let u' : UpdateOrchestrator = record u { last_update_info_version = some info.version } in
        elim (Result-cases (get_current_slot str_of int_of e.env_slot u.device)) [
          | inr (x, g) ↦ rw (stage_os_update, i, g) (refl, inr tt)
          | inl (slot, g) ↦
              let t = install_unsigned e info slot u' n in
              rw (stage_os_update-eq digest str_of int_of e u info slot i g) (t.0, inr t.1)
        ]
  ]

  -- What a run tells: it raises, or it names no version, and where an update is on offer it reports no success.
  abbrev pub InstallsNothing : Environment → Result OtaError UpdateResult → Type 0
  InstallsNothing e (err x) = Unit {0}
  InstallsNothing e (ok r) = (r.new_version ≡ none) × ((e.info ≡ none) ⊎ (success r ≡ false))

  finish_failed :
      (e : Environment) (u : UpdateOrchestrator) (s : StageResult)
      → s.success ≡ false
      → s.skipped ≡ false
      → success (finish digest str_of int_of e u s).1 ≡ false
  finish_failed e u s a b = elim (Bool-cases (success (finish digest str_of int_of e u s).1)) [
    | inr k ↦ k
    | inl k ↦ absurd (ground (arith, finish-success digest str_of int_of e u s k, a, b))
  ]

  -- Where BMT_OTA_ALLOW_UNSIGNED is not true, no run changes the device, whatever the server, the download, the key and
  -- the file system answer: the run raises, or it names no version, and reports no success if an update is on offer.
  pub run_unsigned :
      (e : Environment) (u : UpdateOrchestrator)
      → e.allow_unsigned ≡ false
      → ((run digest str_of int_of e u).0.device ≡ u.device)
        × InstallsNothing e (run digest str_of int_of e u).1
  unfolding run
  run_unsigned e u n =
      let u' = (stage_os_update digest str_of int_of e u).0 in
      let t = stage_os_update_unsigned e u n in
      elim (Result-cases (stage_os_update digest str_of int_of e u).1) [
        | inr (x, g) ↦ rw (run, g) (t.0, tt)
        | inl (s, g) ↦
            let named = finish-new_version digest str_of int_of e u' s in
            let same = (finish_keeps digest str_of int_of e u' s).0 ∙ t.0 in
            elim t.1 [
              | inl (i, k) ↦
                  let skipped : s.skipped ≡ true = ground (arith, k, g) in
                  rw (run, g) (same, (ground (arith, named, skipped), inl i))
              | inr k ↦
                  let failed : (s.success ≡ false) × (s.skipped ≡ false) = rw g at k in
                  rw (run, g)
                    (
                      same,
                      (ground (arith, named, failed), inr (finish_failed e u' s failed.0 failed.1)),
                    )
            ]
      ]
