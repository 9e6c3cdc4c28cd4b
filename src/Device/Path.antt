-- ===== src/Device/Path.antt =====
-- `path_check`, `device_read` and `device_write` of kmodule/device_sessionfs.c: the directory in
-- which sessions are enabled.
use aosv.Base.{
  ℕ, ◌-◌, Bool, true, false, List, [], ◌∷◌, ◌++◌, Option, none, some, ◌==◌, ltb, if◌then◌else◌,
  length, take, replicate,
}
use aosv.Base.Text.{FilePath, contains}
use aosv.Kernel.{Kernel, Result, ok, err}
use aosv.Kernel.Errno.{enoent, eagain, enomem, enodev, einval}
use aosv.Kernel.Run.{done, M, pure, ◌>>=◌, ◌>>◌}
use aosv.Session.{lift}
use aosv.Device.State.{Device, c_string, call, set, enter, exit_with}

abbrev pub path_ok : ℕ
path_ok = 1

-- The byte at the head of a buffer that was filled with zeros.
abbrev pub first_byte : List ℕ → ℕ
first_byte [] = 0
first_byte (b ∷ rest) = b

-- `retval<0 && retval!=-ENOENT`
abbrev pub lookup_failed : Result ℕ → Option ℕ
lookup_failed (ok _) = none
lookup_failed (err e) = if e == enoent then none else some e

module _ {W : Type 0} (K : Kernel W) where
  -- Both arms of the second test return, so the walk over the parents behind it never runs.
  unfoldable pub path_check : FilePath → M (Device W) (Result ℕ)
  unfolding c_string contains
  path_check path d =
      (do
        root ← call (lift (K.kern_path (c_string d.sess_path)))
        elim root [
          | err e ↦ pure (err e)
          | ok _ ↦ do
            given ← call (lift (K.kern_path path))
            elim (lookup_failed given) [
              | some e ↦ pure (err e)
              | none ↦ elim (contains (c_string d.sess_path) path) [
                | true ↦ pure (ok path_ok)
                | false ↦ pure (err enoent)
              ]
            ]
        ])
        d

  unfoldable pub device_read : Bool → ℕ → M (Device W) (Result (List ℕ))
  device_read buffer_null buflen d = elim d.disabled [
    | true ↦ done (err enodev) d
    | false ↦
        (do
          enter
          elim (if buffer_null then true else ltb buflen d.path_len) [
            | true ↦ exit_with (err einval)
            | false ↦ do
              missed ← call (lift (K.copy_user d.path_len))
              elim (missed == 0) [
                | true ↦ exit_with (ok (take d.path_len d.sess_path))
                | false ↦ exit_with (err eagain)
              ]
          ])
          d
  ]

  -- `memset`, `memcpy` and the terminator.
  unfoldable pub fill_path : List ℕ → List ℕ
  fill_path bytes = take (K.path_max - 1) (bytes ++ replicate K.path_max 0) ++ (0 ∷ [])

  unfoldable pub device_write : Option (List ℕ) → M (Device W) (Result ℕ)
  unfolding fill_path
  device_write none d = elim d.disabled [
    | true ↦ done (err enodev) d
    | false ↦ (do enter; exit_with (err einval)) d
  ]
  device_write (some buffer) d = elim d.disabled [
    | true ↦ done (err enodev) d
    | false ↦
        (do
          enter
          elim (ltb K.path_max (length buffer)) [
            | true ↦ exit_with (err einval)
            | false ↦ do
              got ← call (lift K.kmalloc)
              elim got [
                | false ↦ exit_with (err enomem)
                | true ↦ do
                  missed ← call (lift (K.copy_user (length buffer)))
                  elim (missed == 0) [
                    | false ↦ exit_with (err einval)
                    | true ↦ elim (first_byte buffer == b'/') [
                      | false ↦ exit_with (err einval)
                      | true ↦ do
                        set (λ e. record e {
                          sess_path = fill_path buffer;
                          path_len = length buffer;
                        })
                        exit_with (ok 0)
                    ]
                  ]
              ]
          ])
          d
  ]
