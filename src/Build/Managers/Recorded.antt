-- ===== src/Build/Managers/Recorded.antt =====
-- build/device.go, build/mount.go, build/input.go: what the managers record.
use image_assembler.Base.{
  String, Bool, true, false, Option, none, some, ◌≡◌, ◌≢◌, refl, ap, sym, ◌∙◌, ◌⊎◌, inl, inr, Map,
  lookup, insert, if◌then◌else◌, str_eq, str_eq_iff, lookup-insert, lookup-insert_self, arith,
}
use image_assembler.Base.Result.{Result, ok, err, panic}
use image_assembler.Value.{
  Value, null, bool, number, int, int64, float, text, arr, obj, Fields, end, text_or_empty,
  entries_of, as_text,
}
use image_assembler.Manifest.Model.{Device, Mount, Input, device_name}
use image_assembler.Build.Managers.{
  Services, Paths, CallFailure, DeviceManager, rel_path, path_of, open_device, record_device, mount,
  map_input, record_mount, record_path, record_rel, record_input, record_input_path,
  record_input_rel, has_prefix, Mounts, wrong_prefix,
}

-- The result is a success, or the records are as they were.
abbrev pub OkOrSame : {A : Type 0} → A → A × Result {0, 0} CallFailure Fields → Type 0
OkOrSame a r = ((res : Fields) × (r.1 ≡ ok res)) ⊎ (r.0 ≡ a)

module _ (services : Services) (paths : Paths) where
  record_device-OkOrSame :
      (name : String) (m : DeviceManager) (r : Result {0, 0} CallFailure Value)
      → OkOrSame m (record_device name m r)
  record_device-OkOrSame name m (ok null) = inr refl
  record_device-OkOrSame name m (ok (bool b)) = inr refl
  record_device-OkOrSame name m (ok (number n)) = inr refl
  record_device-OkOrSame name m (ok (int n)) = inr refl
  record_device-OkOrSame name m (ok (int64 n)) = inr refl
  record_device-OkOrSame name m (ok (float n)) = inr refl
  record_device-OkOrSame name m (ok (text t)) = inr refl
  record_device-OkOrSame name m (ok (arr vs)) = inr refl
  record_device-OkOrSame name m (ok (obj fs)) = inl (fs, refl)
  record_device-OkOrSame name m (err e) = inr refl
  record_device-OkOrSame name m panic = inr refl

  record_path-OkOrSame :
      (root name path : String) (mounts : Mounts services paths)
      → OkOrSame mounts (record_path services paths root name path mounts)
  record_path-OkOrSame root name path mounts =
      by_tests (str_eq path "") (has_prefix path root) (paths.relative root path)
    where
      by_tests :
          (a b : Bool) (rel : Option String)
          → OkOrSame mounts (
              if a
              then (insert name (obj end) mounts, ok end)
              else if b
              then record_rel services paths name rel mounts
              else (mounts, err wrong_prefix))
      by_tests true b rel = inl (end, refl)
      by_tests false true none = inr refl
      by_tests false true (some rel) = inl (_, refl)
      by_tests false false rel = inr refl

  record_mount-OkOrSame :
      (root name : String) (mounts : Mounts services paths) (r : Result {0, 0} CallFailure Value)
      → OkOrSame mounts (record_mount services paths root name mounts r)
  record_mount-OkOrSame root name mounts (ok null) = inl (_, refl)
  record_mount-OkOrSame root name mounts (ok (bool b)) = inl (_, refl)
  record_mount-OkOrSame root name mounts (ok (number n)) = inl (_, refl)
  record_mount-OkOrSame root name mounts (ok (int n)) = inl (_, refl)
  record_mount-OkOrSame root name mounts (ok (int64 n)) = inl (_, refl)
  record_mount-OkOrSame root name mounts (ok (float n)) = inl (_, refl)
  record_mount-OkOrSame root name mounts (ok (text t)) = record_path-OkOrSame root name t mounts
  record_mount-OkOrSame root name mounts (ok (arr vs)) = inl (_, refl)
  record_mount-OkOrSame root name mounts (ok (obj fs)) = inl (_, refl)
  record_mount-OkOrSame root name mounts (err e) = inr refl
  record_mount-OkOrSame root name mounts panic = inr refl

  record_input_path-OkOrSame :
      (root name : String) (reply : Fields) (path : Option String) (inputs : Map Fields)
      → OkOrSame inputs (record_input_path services paths root name reply path inputs)
  record_input_path-OkOrSame root name reply none inputs = inl (_, refl)
  record_input_path-OkOrSame root name reply (some path) inputs =
      by_tests (has_prefix path root) (paths.relative root path)
    where
      by_tests :
          (b : Bool) (rel : Option String)
          → OkOrSame inputs (
              if b
              then record_input_rel services paths name reply rel inputs
              else (inputs, err wrong_prefix))
      by_tests true none = inr refl
      by_tests true (some rel) = inl (_, refl)
      by_tests false rel = inr refl

  record_input-OkOrSame :
      (root name : String) (inputs : Map Fields) (r : Result {0, 0} CallFailure Value)
      → OkOrSame inputs (record_input services paths root name inputs r)
  record_input-OkOrSame root name inputs (ok null) = inr refl
  record_input-OkOrSame root name inputs (ok (bool b)) = inr refl
  record_input-OkOrSame root name inputs (ok (number n)) = inr refl
  record_input-OkOrSame root name inputs (ok (int n)) = inr refl
  record_input-OkOrSame root name inputs (ok (int64 n)) = inr refl
  record_input-OkOrSame root name inputs (ok (float n)) = inr refl
  record_input-OkOrSame root name inputs (ok (text t)) = inr refl
  record_input-OkOrSame root name inputs (ok (arr vs)) = inr refl
  record_input-OkOrSame root name inputs (ok (obj fs)) =
      record_input_path-OkOrSame root name fs (as_text (lookup "path" (entries_of fs))) inputs
  record_input-OkOrSame root name inputs (err e) = inr refl
  record_input-OkOrSame root name inputs panic = inr refl

  -- Opening a device, mounting and mapping an input each return a result, or leave what is recorded as
  -- it was, whatever the services answer.
  pub managers-OkOrSame :
      (dev : Device) (m : DeviceManager) (root store : String) (mnt : Mount)
      (mounts : Mounts services paths) (ip : Input) (inputs : Map Fields)
      → OkOrSame m (open_device services dev m)
        × OkOrSame mounts (mount services paths root mnt m mounts)
        × OkOrSame inputs (map_input services paths root store ip inputs)
  unfolding open_device mount map_input
  managers-OkOrSame dev m root store mnt mounts ip inputs = (
    record_device-OkOrSame (device_name dev) m _,
    record_mount-OkOrSame root mnt.name mounts _,
    record_input-OkOrSame root ip.name inputs _,
  )

  same_fields : {a b : Fields} → ◌≡◌ {A = Result {0, 0} CallFailure Fields} (ok a) (ok b) → a ≡ b
  same_fields h = cc

  record_device-ok :
      (dev : Device) (m m' : DeviceManager) (res : Fields) (r : Result {0, 0} CallFailure Value)
      → record_device (device_name dev) m r ≡ (m', ok res)
      → m' ≡ record m { devices = insert (device_name dev) res m.devices }
  record_device-ok dev m m' res (ok null) h = cc
  record_device-ok dev m m' res (ok (bool b)) h = cc
  record_device-ok dev m m' res (ok (number n)) h = cc
  record_device-ok dev m m' res (ok (int n)) h = cc
  record_device-ok dev m m' res (ok (int64 n)) h = cc
  record_device-ok dev m m' res (ok (float n)) h = cc
  record_device-ok dev m m' res (ok (text t)) h = cc
  record_device-ok dev m m' res (ok (arr vs)) h = cc
  record_device-ok dev m m' res (ok (obj fs)) h =
      ap (λ x. x.0) (sym h)
      ∙ ap (λ x. record m { devices = insert (device_name dev) x m.devices })
          (same_fields (ap (λ x. x.1) h))
  record_device-ok dev m m' res (err e) h = cc
  record_device-ok dev m m' res panic h = cc

  -- A device that was opened is found under the path that its service answered with, and every other
  -- device under its own.
  pub open_device-rel_path :
      (dev other : Device) (m m' : DeviceManager) (res : Fields)
      → open_device services dev m ≡ (m', ok res)
      → device_name other ≢ device_name dev
      → (rel_path dev m' ≡ text_or_empty (lookup "path" (entries_of res)))
        × (rel_path other m' ≡ rel_path other m)
  unfolding open_device rel_path
  open_device-rel_path dev other m m' res h differ =
      let recorded = record_device-ok dev m m' res _ h in
      (
        ap (λ x. path_of (lookup (device_name dev) x.devices)) recorded
            ∙ ap path_of (lookup-insert_self (device_name dev) res m.devices),
        ap (λ x. path_of (lookup (device_name other) x.devices)) recorded
            ∙ ap path_of (
                lookup-insert (device_name dev) (device_name other) res m.devices
                ∙ ground (arith, differ, str_eq_iff (device_name dev) (device_name other))),
      )
