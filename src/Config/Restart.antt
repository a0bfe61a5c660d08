-- ===== src/Config/Restart.antt =====
-- What a restart finds of the settings: an EEPROM that keeps what it has committed.
use riden_dongle.Base.{
  ℕ, ◌^◌, ◌<◌, ◌≡◌, refl, ◌∙◌, ap, sym, Bool, true, false, List, length, ltb, ltb→lt, if◌then◌else◌,
  arith,
}
use riden_dongle.Base.Memory.{slice, NoNul, length-slice, updates-slice}
use riden_dongle.Vxi.Net.{done, overrun}
use riden_dongle.Config.{
  Eeprom, RidenConfig, read_u32, c_str, config_image, commit, begin,
  get_and_reset_config_portal_on_boot, and_then,
}
use riden_dongle.Config.Image.{
  Image, Image-ext, c_str-NoNul, config_image-Image, config_image-baudrate,
}
use riden_dongle.Config.Loading.{
  Keeps, with_settings, read_u32-ext, load_v1-Image, load_v2-Image, begin-load, reset_lem,
  not_reset,
}

module _ {E : Eeprom} (k : Keeps E) where
  -- The settings that the flash holds, in version 2.
  abbrev pub Saved : E.World → List ℕ → Bool → ℕ → Type 0
  Saved w name portal baudrate =
      Image 2 (k.stored w) name portal
      × (read_u32 (k.stored w) 108 ≡ baudrate)
      × NoNul name
      × (length name < 100)

  -- What a `commit` that returns true has done.
  committed :
      (s t : RidenConfig E) (fits : Bool) (o : Bool × E.World)
      → (if fits then done o.0 (record s { world = o.1 }) else overrun) ≡ done true t
      → (fits ≡ true) × (o.0 ≡ true) × (t.world ≡ o.1)
  committed s t true o h = (refl, cc h, cc h)
  committed s t false o h = cc h

  stored-put :
      (s : RidenConfig E) (i : ℕ)
      → i < 112
      → let w = E.put 0 (slice (config_image s) 0 112) s.world in
        (E.commit w).0 ≡ true → k.stored (E.commit w).1 i ≡ config_image s i
  stored-put s i lt success =
      k.stored-commit _ i (omega arith) success
      ∙ k.get-put 0 (slice (config_image s) 0 112) s.world i
          (omega (arith, length-slice (config_image s) 0 112)) (omega arith)
      ∙ updates-slice (E.get s.world) (config_image s) 0 112 i (omega arith) lt

  commit-Saved :
      (s t : RidenConfig E)
      → s.uart_baudrate < 2 ^ 32
      → commit s ≡ done true t
      → Saved t.world (c_str s.tz_name) s.config_portal_on_boot s.uart_baudrate
  unfolding commit
  commit-Saved s t small ran =
      let w = E.put 0 (slice (config_image s) 0 112) s.world in
      let (fits, success, there) =
        committed s t (ltb (length (c_str s.tz_name)) 100) (E.commit w) ran in
      let short : length (c_str s.tz_name) < 100 = ltb→lt _ _ fits in
      rw there (
        Image-ext (config_image s) (k.stored (E.commit w).1) (c_str s.tz_name) short
            (λ i lt. sym (stored-put s i (omega arith) success)) (config_image-Image s short),
        read_u32-ext (config_image s) (k.stored (E.commit w).1)
              (λ i lt. sym (stored-put s i (omega arith) success))
            ∙ config_image-baudrate s short small,
        c_str-NoNul s.tz_name,
        short,
      )

  -- The buffer of `begin` means what the flash does.
  begin-Image :
      {v : ℕ} (w : E.World) (name : List ℕ) (portal : Bool)
      → length name < 100
      → Image v (k.stored w) name portal
      → Image v (E.get (E.begin 512 w)) name portal
  begin-Image w name portal short m =
      Image-ext (k.stored w) (E.get (E.begin 512 w)) name short
        (λ i lt. sym (k.get-begin w i (omega arith))) m

  begin-Saved :
      (s : RidenConfig E) (name : List ℕ) (portal : Bool) (baudrate : ℕ)
      → Saved s.world name portal baudrate
      → begin s
        ≡ done true (with_settings name portal baudrate (record s { world = E.begin 512 s.world }))
  begin-Saved s name portal baudrate (m, rate, full, short) =
      let m' = begin-Image s.world name portal short m in
      let t = record s { world = E.begin 512 s.world } in
      begin-load s 2 m'.marked m'.versioned
      ∙ load_v2-Image t name portal m' full short
      ∙ ap (λ r. done true (with_settings name portal r t))
          (read_u32-ext (k.stored s.world) (E.get (E.begin 512 s.world))
              (λ i lt. sym (k.get-begin s.world i (omega arith)))
            ∙ rate)

  -- With an EEPROM that keeps what it has committed: after a `commit` that returns true, `begin` of any
  -- object at a restart returns true and has the settings of the object that was saved, with the time
  -- zone as C reads it, and a baud rate of 32 bits.
  pub commit-begin :
      (s t u : RidenConfig E)
      → s.uart_baudrate < 2 ^ 32
      → commit s ≡ done true t
      → u.world ≡ t.world
      → begin u
        ≡ done true (
            with_settings
              (c_str s.tz_name)
              s.config_portal_on_boot
              s.uart_baudrate
              (record u { world = E.begin 512 t.world }))
  commit-begin s t u small ran there =
      begin-Saved u (c_str s.tz_name) s.config_portal_on_boot s.uart_baudrate
        (rw there (commit-Saved s t small ran))
      ∙ ap
          (λ w. done true (
            with_settings (c_str s.tz_name) s.config_portal_on_boot s.uart_baudrate
              (record u { world = E.begin 512 w })))
          there

  -- Settings of version 1 are loaded, and the baud rate stays that of the object; they are not written
  -- back in version 2.
  pub begin_version_1 :
      (s : RidenConfig E) (name : List ℕ) (portal : Bool)
      → Image 1 (k.stored s.world) name portal
      → NoNul name
      → length name < 100
      → begin s
        ≡ done true
            (with_settings name portal s.uart_baudrate (record s { world = E.begin 512 s.world }))
  begin_version_1 s name portal m full short =
      let m' = begin-Image s.world name portal short m in
      begin-load s 1 m'.marked m'.versioned
      ∙ load_v1-Image (record s { world = E.begin 512 s.world }) name portal m' full short

  -- A portal that is asked for opens once: with an EEPROM that keeps what it has committed, a request
  -- that `commit` has saved is found by `begin` and get_and_reset_config_portal_on_boot at the next
  -- restart, and no longer at the one after that, where the reset has been saved too; the other
  -- settings stay.
  pub portal_once :
      (s t u v x : RidenConfig E)
      → s.uart_baudrate < 2 ^ 32
      → s.config_portal_on_boot ≡ true
      → commit s ≡ done true t
      → u.world ≡ t.world
      → let found =
          with_settings
            (c_str s.tz_name)
            true
            s.uart_baudrate
            (record u { world = E.begin 512 t.world }) in
        commit (record found { config_portal_on_boot = false }) ≡ done true v
        → x.world ≡ v.world
        → let later =
            with_settings
              (c_str (c_str s.tz_name))
              false
              s.uart_baudrate
              (record x { world = E.begin 512 v.world }) in
          (begin u ≡ done true found)
          × (get_and_reset_config_portal_on_boot found ≡ done true v)
          × (begin x ≡ done true later)
          × (get_and_reset_config_portal_on_boot later ≡ done false later)
  portal_once s t u v x small on saved restart reset again =
      let found =
        with_settings (c_str s.tz_name) true s.uart_baudrate
          (record u { world = E.begin 512 t.world }) in
      (
        commit-begin s t u small saved restart
            ∙ ap
                (λ p. done true (
                  with_settings (c_str s.tz_name) p s.uart_baudrate
                    (record u { world = E.begin 512 t.world })))
                on,
        reset_lem found refl ∙ ap (and_then true) reset,
        commit-begin (record found { config_portal_on_boot = false }) v x small reset again,
        not_reset _ refl,
      )
