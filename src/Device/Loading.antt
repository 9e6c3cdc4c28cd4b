-- ===== src/Device/Loading.antt =====
-- Loading the module, on every branch of `init_device` of kmodule/device_sessionfs.c.
use aosv.Base.{
  ℕ, ◌≡◌, refl, sym, ◌∙◌, ap, subst, Bool, true, false, [], ◌++◌, ◌-◌, length, replicate, arith,
}
use aosv.Base.Atomic.{pos}
use aosv.Kernel.{Kernel, Result, ok, err}
use aosv.Kernel.Run.{Run, done, fault, Returns}
use aosv.Session.{Sys}
use aosv.Manager.Close.{init_manager}
use aosv.Manager.Clean.{clean_manager, sweep_sessions}
use aosv.Device.State.{Device}
use aosv.Device.Setup.{
  Registers, default_sess_path, init_info, release_info, create_device, create_class,
  register_device, init_path, init_ops, init_device, release_device,
}

-- What `create` has done is undone by `undo`; where it fails it has done nothing.
abbrev pub Undone : {W A : Type 0} → Result A × W → (W → W) → W → Type 0
Undone (ok a, v) undo w = undo v ≡ w
Undone (err e, v) undo w = v ≡ w

-- `dev_kobj` is set if the attribute was made.
abbrev Holds : Result (Unit {0}) → Bool → Type 0
Holds (ok _) there = there ≡ true
Holds (err _) there = there ≡ false

module _ {W : Type 0} (R : Registers W) where
  pub record Undoes : Type 0 where
    pub chrdev : (w : W) → Undone (R.register_chrdev w) R.unregister_chrdev w
    pub class : (w : W) → Undone (R.class_create w) R.class_destroy w
    pub device : (w : W) → Undone (R.device_create w) R.device_destroy w
    pub attribute : (w : W) → Undone (R.create_attribute w) R.remove_attribute w

module _ {W : Type 0} (K : Kernel W) (R : Registers W) where
  -- Unloading: where the attribute was made it ends, and the world is `w`; where it was refused,
  -- it reads through the null pointer.
  abbrev Unloaded : W → Result (Unit {0}) → Run (Device W) (Unit {0}) → Type 0
  Unloaded w (ok _) r = Returns (λ _ v. (v.disabled ≡ true) × (v.sys.world ≡ w)) r
  Unloaded w (err _) r = r ≡ fault

  -- After a load from the world `w`: on an error the world is as it was; on success the device answers,
  -- no session is listed, the attribute was asked for in some world `x`, and its answer says what
  -- unloading the module again does.
  abbrev pub After : W → Result (Unit {0}) → Device W → Type 0
  After w (err e) t = t.sys.world ≡ w
  After w (ok _) t =
      (x : W) × (t.sys.world ≡ (R.create_attribute x).1)
      × (t.disabled ≡ false)
      × (t.sys.sessions ≡ [])
      × Unloaded w (R.create_attribute x).0 (release_device K R t)

module _ {W : Type 0} (K : Kernel W) (R : Registers W) (undoes : Undoes R) where
  clean_manager_empty : (s : Sys W) → s.sessions ≡ [] → clean_manager K s ≡ done 0 s
  unfolding clean_manager sweep_sessions
  clean_manager_empty s none_left = ground (arith, none_left)

  release_device_lem :
      (t : Device W)
      → t.sys.sessions ≡ []
      → t.dev_kobj ≡ true
      → release_device K R t
        ≡ done tt (record t {
          disabled = true;
          sys = record t.sys {
            world =
                R.unregister_chrdev
                  (R.class_destroy (R.device_destroy (R.remove_attribute t.sys.world)));
          };
        })
  unfolding release_device release_info
  release_device_lem t none_left there = ground (arith, clean_manager_empty t.sys none_left)

  release_device_crashes :
      (t : Device W) → t.sys.sessions ≡ [] → t.dev_kobj ≡ false → release_device K R t ≡ fault
  unfolding release_device release_info
  release_device_crashes t none_left absent = ground (arith, clean_manager_empty t.sys none_left)

  -- The device `t` whose attribute was asked for in the world `x`.
  unloads :
      (w x : W) (t : Device W) (r : Result (Unit {0}) × W)
      → t.sys.sessions ≡ []
      → R.create_attribute x ≡ r
      → Undone r R.remove_attribute x
      → t.sys.world ≡ r.1
      → Holds r.0 t.dev_kobj
      → R.unregister_chrdev (R.class_destroy (R.device_destroy x)) ≡ w
      → Unloaded K R w r.0 (release_device K R t)
  unloads w x t (ok o, y) none_left asked undone at there below =
      subst (Returns (λ _ v. (v.disabled ≡ true) × (v.sys.world ≡ w)))
        (sym (release_device_lem t none_left there))
        (
          refl,
          ap (λ y. R.unregister_chrdev (R.class_destroy (R.device_destroy y)))
                (ap R.remove_attribute at ∙ undone)
              ∙ below,
        )
  unloads w x t (err e, y) none_left asked undone at absent below =
      release_device_crashes t none_left absent

  create_device-After :
      (w : W) (t : Device W) (r : Result ℕ × W)
      → t.dev_kobj ≡ false
      → t.disabled ≡ false
      → t.sys.sessions ≡ []
      → R.unregister_chrdev (R.class_destroy t.sys.world) ≡ w
      → R.device_create t.sys.world ≡ r
      → Undone r R.device_destroy t.sys.world
      → Returns (After K R w) (create_device R t)
  unfolding create_device init_info
  create_device-After w t (ok n, v) absent on none_left below created undone =
      go (R.create_attribute v) refl (undoes.attribute v)
    where
      before : R.unregister_chrdev (R.class_destroy (R.device_destroy v)) ≡ w
      before = ap (λ y. R.unregister_chrdev (R.class_destroy y)) undone ∙ below

      loaded : Bool → W → Device W
      loaded there y = record t {
        locked = true;
        dev_kobj = there;
        sys = record t.sys { world = y; sessions_num = pos 0 };
      }

      ended :
          (r : Result (Unit {0}) × W) (there : Bool)
          → R.create_attribute v ≡ r
          → Undone r R.remove_attribute v
          → Holds r.0 there
          → After K R w (ok tt) (loaded there r.1)
      ended r there asked undone' held = (
        v,
        ap (λ q. q.1) (sym asked),
        on,
        none_left,
        subst (λ q. Unloaded K R w q.0 (release_device K R (loaded there r.1))) (sym asked)
            (unloads w v (loaded there r.1) r none_left asked undone' refl held before),
      )

      go :
          (r : Result (Unit {0}) × W)
          → R.create_attribute v ≡ r
          → Undone r R.remove_attribute v
          → Returns (After K R w) (create_device R t)
      go (ok o, y) asked undone' =
          let made : create_device R t ≡ done (ok tt) (loaded true y) =
            ground (arith, created, asked) in
          subst (Returns (After K R w)) (sym made) (ended (ok o, y) true asked undone' refl)
      go (err e, y) asked undone' =
          let made : create_device R t ≡ done (ok tt) (loaded t.dev_kobj y) =
            ground (arith, created, asked) in
          subst (Returns (After K R w)) (sym made)
            (ended (err e, y) t.dev_kobj asked undone' absent)
  create_device-After w t (err e, v) absent on none_left below created undone =
      let u = record t { sys = record t.sys { world = R.unregister_chrdev (R.class_destroy v) } } in
      let undoing : create_device R t ≡ done (err e) u = ground (arith, created) in
      subst (Returns (After K R w)) (sym undoing)
        (ap (λ y. R.unregister_chrdev (R.class_destroy y)) undone ∙ below)

  create_class-After :
      (w : W) (t : Device W) (r : Result ℕ × W)
      → t.dev_kobj ≡ false
      → t.disabled ≡ false
      → t.sys.sessions ≡ []
      → R.unregister_chrdev t.sys.world ≡ w
      → R.class_create t.sys.world ≡ r
      → Undone r R.class_destroy t.sys.world
      → Returns (After K R w) (create_class R t)
  unfolding create_class
  create_class-After w t (ok n, v) absent on none_left below created undone =
      let u = record t { sys = record t.sys { world = v } } in
      let made : create_class R t ≡ create_device R u = ground (arith, created) in
      subst (Returns (After K R w)) (sym made) (
        create_device-After w u (R.device_create v) absent on none_left
          (ap R.unregister_chrdev undone ∙ below) refl (undoes.device v))
  create_class-After w t (err e, v) absent on none_left below created undone =
      let u = record t { sys = record t.sys { world = R.unregister_chrdev v } } in
      let undoing : create_class R t ≡ done (err e) u = ground (arith, created) in
      subst (Returns (After K R w)) (sym undoing) (ap R.unregister_chrdev undone ∙ below)

  register_device-After :
      (t : Device W) (r : Result ℕ × W)
      → t.dev_kobj ≡ false
      → t.disabled ≡ false
      → t.sys.sessions ≡ []
      → R.register_chrdev t.sys.world ≡ r
      → Undone r R.unregister_chrdev t.sys.world
      → Returns (After K R t.sys.world) (register_device R t)
  unfolding register_device
  register_device-After t (ok n, v) absent on none_left created undone =
      let u = record t { sys = record t.sys { world = v } } in
      let made : register_device R t ≡ create_class R u = ground (arith, created) in
      subst (Returns (After K R t.sys.world)) (sym made) (
        create_class-After t.sys.world u (R.class_create v) absent on none_left undone refl
          (undoes.class v))
  register_device-After t (err e, v) absent on none_left created undone =
      let u = record t { sys = record t.sys { world = v } } in
      let failed : register_device R t ≡ done (err e) u = ground (arith, created) in
      subst (Returns (After K R t.sys.world)) (sym failed) undone

  -- Where memory is granted, each of the registrations can be undone and does nothing where it fails, and
  -- `dev_kobj` is NULL as at the start: loading the module ends, on every branch; after an error nothing
  -- stays registered; after a success the device answers and no session is listed, and unloading the
  -- module again ends and leaves the world as it was before if the attribute was made, and faults
  -- if it was refused.
  pub init_device-After :
      (d : Device W)
      → d.dev_kobj ≡ false
      → ((w : W) → K.kmalloc w ≡ (true, w))
      → Returns (After K R d.sys.world) (init_device K R d)
  unfolding init_device init_path init_ops init_manager
  init_device-After d absent grants =
      let t = record d {
        disabled = false;
        refcount = pos 0;
        sess_path = default_sess_path ++ replicate (K.path_max - length default_sess_path) 0;
        path_len = length default_sess_path;
        sys = record d.sys { sessions = [] };
      } in
      let ready : init_device K R d ≡ register_device R t = ground (arith, grants d.sys.world) in
      subst (Returns (After K R d.sys.world)) (sym ready) (
        register_device-After t (R.register_chrdev d.sys.world) absent refl refl refl
          (undoes.chrdev d.sys.world))
