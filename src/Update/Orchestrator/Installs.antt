-- ===== src/Update/Orchestrator/Installs.antt =====
-- What a run of the update tells about the image on the device.
use bmt_ai_os.Prelude.{
  ℕ, String, ◌≡◌, ◌⊎◌, refl, sym, ap, ◌∙◌, inl, inr, true, false, Bool-cases, Option, none, some,
  Option-cases, List, not, ◌&&◌, ◌||◌, if◌then◌else◌, Result, ok, Result-cases, arith,
}
use bmt_ai_os.Ota.State.{Json}
use bmt_ai_os.Ota.Verify.{IsAccepted}
use bmt_ai_os.Ota.Engine.{Device, OtaError, apply_update, get_current_slot}
use bmt_ai_os.Ota.Engine.Apply.{IsVerified, apply_update-true}
use bmt_ai_os.Update.Orchestrator.{
  StageResult, UpdateResult, UpdateInfo, UpdateOrchestrator, Environment, success, all_succeed, add,
  os_stage, install, stage_os_update, stage_containers, finish, run, request,
}

module _ (digest : List ℕ → String) (str_of : Json → String) (int_of : String → Option ℕ) where
  -- The update that the server offers was downloaded and applied to the slot that is not the current
  -- one, and left the device as it is now.
  pub record Installed (e : Environment) (u : UpdateOrchestrator) (now : Device) (version : String)
      : Type 0 where
    pub info : UpdateInfo
    pub slot : String
    pub offered : e.info ≡ some info
    pub is_version : info.version ≡ version
    pub current : get_current_slot str_of int_of e.env_slot u.device ≡ ok slot
    pub downloaded : e.download info.url info.sha256 ≡ true
    pub applied : (apply_update digest str_of int_of (request e slot) u.device).1 ≡ ok true
    pub left : now ≡ (apply_update digest str_of int_of (request e slot) u.device).0

  install-true :
      (e : Environment) (info : UpdateInfo) (slot : String) (u : UpdateOrchestrator)
      (s : StageResult)
      → (install digest str_of int_of e info slot u).1 ≡ ok s
      → s.success ≡ true
      → (e.download info.url info.sha256 ≡ true)
        × ((apply_update digest str_of int_of (request e slot) u.device).1 ≡ ok true)
        × ((install digest str_of int_of e info slot u).0
            ≡ record u { device = (apply_update digest str_of int_of (request e slot) u.device).0 })
        × (s.skipped ≡ false)
  unfolding install os_stage
  install-true e info slot u s h k = elim (Bool-cases (e.download info.url info.sha256)) [
    | inr f ↦ absurd (ground (arith, f, h, k))
    | inl f ↦ elim (Result-cases (apply_update digest str_of int_of (request e slot) u.device).1) [
      | inr (x, g) ↦ absurd (ground (arith, f, g, h, k))
      | inl (done, g) ↦ (f, ground (arith, f, g, h, k), rw (f, g) refl, ground (arith, f, g, h, k))
    ]
  ]

  install-skipped :
      (e : Environment) (info : UpdateInfo) (slot : String) (u : UpdateOrchestrator)
      (s : StageResult)
      → (install digest str_of int_of e info slot u).1 ≡ ok s
      → s.skipped ≡ false
  unfolding install os_stage
  install-skipped e info slot u s h = elim (Bool-cases (e.download info.url info.sha256)) [
    | inr f ↦ ground (arith, f, h)
    | inl f ↦ elim (Result-cases (apply_update digest str_of int_of (request e slot) u.device).1) [
      | inr (x, g) ↦ absurd (ground (arith, f, g, h))
      | inl (done, g) ↦ ground (arith, f, g, h)
    ]
  ]

  pub stage_os_update-eq :
      (e : Environment) (u : UpdateOrchestrator) (info : UpdateInfo) (slot : String)
      → e.info ≡ some info
      → get_current_slot str_of int_of e.env_slot u.device ≡ ok slot
      → stage_os_update digest str_of int_of e u
        ≡ install digest str_of int_of e info slot
            (record u { last_update_info_version = some info.version })
  unfolding stage_os_update request
  stage_os_update-eq e u info slot i g = rw (i, stage_os_update, g) refl

  -- The system stage succeeds in two ways.
  stage_os_update-cases :
      (e : Environment) (u : UpdateOrchestrator) (s : StageResult)
      → (stage_os_update digest str_of int_of e u).1 ≡ ok s
      → ((e.info ≡ none) × (s.skipped ≡ true) × ((stage_os_update digest str_of int_of e u).0 ≡ u))
        ⊎ ((s.skipped ≡ false)
            × (s.success ≡ true
                → (version : String) × Installed e u
                    (stage_os_update digest str_of int_of e u).0.device
                    version
                  × ((stage_os_update digest str_of int_of e u).0.last_update_info_version
                      ≡ some version)))
  unfolding stage_os_update
  stage_os_update-cases e u s h = elim (Option-cases e.info) [
    | inl n ↦ inl (n, ground (arith, n, h), rw n refl)
    | inr (info, i) ↦
        let u' : UpdateOrchestrator = record u { last_update_info_version = some info.version } in
        elim (Result-cases (get_current_slot str_of int_of e.env_slot u.device)) [
          | inr (x, g) ↦ absurd (ground (arith, i, g, h))
          | inl (slot, g) ↦
              let whole = stage_os_update-eq e u info slot i g in
              let o' = ap (λ (x : UpdateOrchestrator × Result OtaError StageResult). x.0) whole in
              let h' : (install digest str_of int_of e info slot u').1 ≡ ok s =
                sym (ap (λ (x : UpdateOrchestrator × Result OtaError StageResult). x.1) whole)
                ∙ h in
              inr (
                install-skipped e info slot u' s h',
                λ k.
                    let (d, a, o, _) = install-true e info slot u' s h' k in
                    (
                      info.version,
                      record {
                        info = info;
                        slot = slot;
                        offered = i;
                        is_version = refl;
                        current = g;
                        downloaded = d;
                        applied = a;
                        left = ap UpdateOrchestrator.device (o' ∙ o);
                      },
                      ap UpdateOrchestrator.last_update_info_version (o' ∙ o),
                    ),
              )
        ]
  ]

  -- A request of the orchestrator is accepted only where nothing is checked.
  unaccepted :
      (e : Environment) (slot : String)
      → IsAccepted (request e slot).signing
      → e.allow_unsigned ≡ true
  unfolding request
  unaccepted e slot (inl a) = a
  unaccepted e slot (inr (s, _, _)) = absurd (ground (arith, s))

  -- The stages after the system stage change the container images alone.
  pub finish_keeps :
      (e : Environment) (u : UpdateOrchestrator) (s : StageResult)
      → ((finish digest str_of int_of e u s).0.device ≡ u.device)
        × ((finish digest str_of int_of e u s).0.last_update_info_version
            ≡ u.last_update_info_version)
  unfolding finish stage_containers
  finish_keeps e u s = (ground arith, ground arith)

  -- A run returns when its system stage does.
  pub run-cases :
      (e : Environment) (u : UpdateOrchestrator) (r : UpdateResult)
      → (run digest str_of int_of e u).1 ≡ ok r
      → (s : StageResult) × ((stage_os_update digest str_of int_of e u).1 ≡ ok s)
        × ((run digest str_of int_of e u).0
            ≡ (finish digest str_of int_of e (stage_os_update digest str_of int_of e u).0 s).0)
        × (r ≡ (finish digest str_of int_of e (stage_os_update digest str_of int_of e u).0 s).1)
  unfolding run
  run-cases e u r h = elim (Result-cases (stage_os_update digest str_of int_of e u).1) [
    | inr (x, g) ↦ absurd (ground (arith, g, h))
    | inl (s, g) ↦ (s, g, rw (run, g) refl, ground (arith, g, h))
  ]

  pub finish-new_version :
      (e : Environment) (u : UpdateOrchestrator) (s : StageResult)
      → (finish digest str_of int_of e u s).1.new_version
        ≡ (if s.success && not s.skipped then u.last_update_info_version else none)
  unfolding finish add
  finish-new_version e u s = elim (Bool-cases (s.success && not s.skipped)) [
    | inl k ↦ rw k refl
    | inr k ↦ rw k refl
  ]

  pub finish-success :
      (e : Environment) (u : UpdateOrchestrator) (s : StageResult)
      → success (finish digest str_of int_of e u s).1 ≡ true
      → (s.success || s.skipped) ≡ true
  unfolding finish add success all_succeed
  finish-success e u s h = elim (Bool-cases s.success) [
    | inl k ↦ rw k refl
    | inr k ↦ elim (Bool-cases s.skipped) [
      | inl j ↦ rw (k, j) refl
      | inr j ↦ absurd (ground (arith, rw (k, j) at h))
    ]
  ]

  -- A run that reports success either found no update on offer, named no version and changed the container images
  -- alone, or named the version that it installed: BMT_OTA_ALLOW_UNSIGNED is true, the download was accepted, and the
  -- slot that is not the current one holds an image with the digest of the one downloaded. No signature is checked.
  pub run_success :
      (e : Environment) (u : UpdateOrchestrator) (r : UpdateResult)
      → (run digest str_of int_of e u).1 ≡ ok r
      → success r ≡ true
      → ((e.info ≡ none)
          × (r.new_version ≡ none)
          × ((run digest str_of int_of e u).0.device ≡ u.device)
          × ((run digest str_of int_of e u).0.last_update_info_version
              ≡ u.last_update_info_version))
        ⊎ ((version : String) × (i : Installed e u (run digest str_of int_of e u).0.device version)
            × (r.new_version ≡ some version)
            × (e.allow_unsigned ≡ true)
            × IsVerified digest (request e i.slot) (run digest str_of int_of e u).0.device)
  run_success e u r h k =
      let (s, g, same, whole) = run-cases e u r h in
      let u' = (stage_os_update digest str_of int_of e u).0 in
      let kept = finish_keeps e u' s in
      let device : (run digest str_of int_of e u).0.device ≡ u'.device =
        ap UpdateOrchestrator.device same ∙ kept.0 in
      let noted : (run digest str_of int_of e u).0.last_update_info_version
          ≡ u'.last_update_info_version =
        ap UpdateOrchestrator.last_update_info_version same ∙ kept.1 in
      let w = ap UpdateResult.new_version whole ∙ finish-new_version e u' s in
      let passed = finish-success e u' s (rw whole at k) in
      elim (stage_os_update-cases e u s g) [
        | inl (offered, skipped, left) ↦ inl (
          offered,
          ground (arith, w, skipped),
          device ∙ ap UpdateOrchestrator.device left,
          noted ∙ ap UpdateOrchestrator.last_update_info_version left,
        )
        | inr (full, made) ↦
            let good : s.success ≡ true = ground (arith, full, passed) in
            let (version, i, named) = made good in
            let j : Installed e u (run digest str_of int_of e u).0.device version = rw device i in
            let (target, exists, accepted, verified, switched) =
              apply_update-true digest str_of int_of (request e j.slot) u.device j.applied in
            inr (
              version,
              j,
              ground (arith, w, good, full, named),
              unaccepted e j.slot accepted,
              rw j.left verified,
            )
      ]
