-- ===== src/Manifest/Parse/Top/Frame.antt =====
-- The loaders change only a stage's devices, inputs and mounts.
use image_assembler.Base.{String, List, [], ◌∷◌, ◌≡◌, refl, ◌∙◌, arith, Option-cases, inl, inr}
use image_assembler.Base.Result.{ok, >>=-eq-ok}
use image_assembler.Value.{Value, obj, Fields, end, field, at, as_obj, as_arr}
use image_assembler.Manifest.Model.{Stage, Manifest}
use image_assembler.Manifest.Parse.Devices.{sort_devices}
use image_assembler.Manifest.Parse.Loaders.{Env, load_device, load_input, load_mount}
use image_assembler.Manifest.Parse.Top.{
  load_devices, devices_of, load_inputs, inputs_of, load_mounts, mounts_of,
}

-- What identifies a stage, but for its inputs and mounts.
pub record SameFrame (s t : Stage) : Type 0 where
  pub type_name : s.type_name ≡ t.type_name
  pub build : s.build ≡ t.build
  pub base : s.base ≡ t.base
  pub options : s.options ≡ t.options
  pub source_epoch : s.source_epoch ≡ t.source_epoch
  pub checkpoint : s.checkpoint ≡ t.checkpoint

pub SameFrame-refl : (s : Stage) → SameFrame s s
SameFrame-refl s = record {
  type_name = refl;
  build = refl;
  base = refl;
  options = refl;
  source_epoch = refl;
  checkpoint = refl;
}

pub SameFrame-trans : {s t u : Stage} → SameFrame s t → SameFrame t u → SameFrame s u
SameFrame-trans h k = record {
  type_name = h.type_name ∙ k.type_name;
  build = h.build ∙ k.build;
  base = h.base ∙ k.base;
  options = h.options ∙ k.options;
  source_epoch = h.source_epoch ∙ k.source_epoch;
  checkpoint = h.checkpoint ∙ k.checkpoint;
}

module _ (env : Env) where
  load_device-SameFrame :
      (name : String) (desc : Fields) (s t : Stage)
      → load_device env name desc s ≡ ok t
      → SameFrame s t
  unfolding load_device
  load_device-SameFrame name desc s t h = ground arith

  load_input-SameFrame :
      (name : String) (desc : Fields) (m : Manifest) (s t : Stage)
      → load_input env name desc m s ≡ ok t
      → SameFrame s t
  unfolding load_input
  load_input-SameFrame name desc m s t h = ground arith

  load_mount-SameFrame :
      (desc : Fields) (s t : Stage) → load_mount env desc s ≡ ok t → SameFrame s t
  unfolding load_mount
  load_mount-SameFrame desc s t h = ground arith

  load_devices-SameFrame :
      (devs : Fields) (names : List String) (s t : Stage)
      → load_devices env devs names s ≡ ok t
      → SameFrame s t
  unfolding load_devices
  load_devices-SameFrame devs [] s t h = let same : s ≡ t = cc in rw same (SameFrame-refl t)
  load_devices-SameFrame devs (name ∷ names) s t h = elim (Option-cases (as_obj (at name devs))) [
    | inl e ↦ absurd (ground arith)
    | inr (dd, e) ↦
        let (s', p, q) =
          >>=-eq-ok (load_device env name dd s) (load_devices env devs names)
            (rw (e, load_devices) at h) in
        SameFrame-trans (load_device-SameFrame name dd s s' p)
          (load_devices-SameFrame devs names s' t q)
  ]

  pub devices_of-SameFrame :
      (desc : Fields) (s t : Stage) → devices_of env desc s ≡ ok t → SameFrame s t
  unfolding devices_of
  devices_of-SameFrame desc s t h = elim (Option-cases (as_obj (at "devices" desc))) [
    | inl e ↦ let same : s ≡ t = ground arith in rw same (SameFrame-refl t)
    | inr (devs, e) ↦
        let (sorted, p, q) =
          >>=-eq-ok (sort_devices devs) (λ sorted. load_devices env devs sorted s)
            (rw (e, devices_of) at h) in
        load_devices-SameFrame devs sorted s t q
  ]

  load_inputs-SameFrame :
      (see : Stage → Manifest) (fs : Fields) (s t : Stage)
      → load_inputs env see fs s ≡ ok t
      → SameFrame s t
  unfolding load_inputs
  load_inputs-SameFrame see end s t h = let same : s ≡ t = cc in rw same (SameFrame-refl t)
  load_inputs-SameFrame see (field name (obj desc) fs) s t h =
      let (s', p, q) = >>=-eq-ok (load_input env name desc (see s) s) (load_inputs env see fs) h in
      SameFrame-trans (load_input-SameFrame name desc (see s) s s' p)
        (load_inputs-SameFrame see fs s' t q)
  load_inputs-SameFrame see (field name _ fs) s t h = load_inputs-SameFrame see fs s t h

  pub inputs_of-SameFrame :
      (see : Stage → Manifest) (desc : Fields) (s t : Stage)
      → inputs_of env see desc s ≡ ok t
      → SameFrame s t
  unfolding inputs_of
  inputs_of-SameFrame see desc s t h = elim (Option-cases (as_obj (at "inputs" desc))) [
    | inl e ↦ let same : s ≡ t = ground arith in rw same (SameFrame-refl t)
    | inr (fs, e) ↦ load_inputs-SameFrame see fs s t (rw (e, inputs_of) at h)
  ]

  load_mounts-SameFrame :
      (vs : List Value) (s t : Stage) → load_mounts env vs s ≡ ok t → SameFrame s t
  unfolding load_mounts
  load_mounts-SameFrame [] s t h = let same : s ≡ t = cc in rw same (SameFrame-refl t)
  load_mounts-SameFrame (obj desc ∷ vs) s t h =
      let (s', p, q) = >>=-eq-ok (load_mount env desc s) (load_mounts env vs) h in
      SameFrame-trans (load_mount-SameFrame desc s s' p) (load_mounts-SameFrame vs s' t q)
  load_mounts-SameFrame (_ ∷ vs) s t h = load_mounts-SameFrame vs s t h

  pub mounts_of-SameFrame :
      (desc : Fields) (s t : Stage) → mounts_of env desc s ≡ ok t → SameFrame s t
  unfolding mounts_of
  mounts_of-SameFrame desc s t h = elim (Option-cases (as_arr (at "mounts" desc))) [
    | inl e ↦ let same : s ≡ t = ground arith in rw same (SameFrame-refl t)
    | inr (vs, e) ↦ load_mounts-SameFrame vs s t (rw (e, mounts_of) at h)
  ]
