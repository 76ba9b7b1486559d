-- ===== src/Gui/Windows.antt =====
-- The keys in the windows of the desktop, src/kernel/gui.cpp, keep it in its bounds.
use trieternal_x_os.Base.{
  ℕ, ◌+◌, ◌-◌, ◌≤◌, Bool, true, false, not, ◌&&◌, [], ◌∷◌, ◌++◌, arith, ltb, ◌==◌, if◌then◌else◌,
  Bool-cases, Option-cases, inl, inr, length, length-append,
}
use trieternal_x_os.Base.Text.{codes, same_text}
use trieternal_x_os.Fs.Listing.{VirtualFile}
use trieternal_x_os.Gui.{Gui, System}
use trieternal_x_os.Gui.Keys.{full_path, files_key, input_key, enter_dir, view_file, services_key}
use trieternal_x_os.Gui.Bounds.{
  Fits, IsRoomy, moved-Fits, refresh_file_list-Fits, refresh_services_list-Fits, show-Fits, take-le,
  term_execute-Fits,
}

pub record IsValid {S : Type 0} (g : Gui S) : Type 0 where
  pub fits : Fits g

module _ {S : Type 0} where
  abbrev pub ok : {g : Gui S} → Fits g → IsValid g
  ok v = record { fits = v }

  pub IsValid-if : (b : Bool) (x y : Gui S) → IsValid x → IsValid y → IsValid (if b then x else y)
  IsValid-if true x y p q = p
  IsValid-if false x y p q = q

  module _ (ops : System S) (roomy : IsRoomy ops) where
    enter_dir-IsValid :
        (file : VirtualFile) (g : Gui S)
        → length file.name ≤ 62
        → Fits g
        → IsValid (enter_dir ops file g)
    unfolding enter_dir
    enter_dir-IsValid file g short v = elim (Bool-cases (same_text g.current_dir (codes "/"))) [
      | inl e11 ↦
          rw (e11, enter_dir)
            (let (w, m, (f, n), s, t, i) =
                refresh_file_list-Fits ops roomy (record g { current_dir = codes "/" ++ file.name })
                  (moved-Fits ops roomy (codes "/" ++ file.name) g (omega (arith, short)) v) in
              ok (w, m, (omega arith, n), s, t, i))
      | inr e11 ↦
          rw (e11, enter_dir)
            (let (w, m, (f, n), s, t, i) = refresh_file_list-Fits ops roomy g v in
              ok (w, m, (omega arith, n), s, t, i))
    ]

    view_file-IsValid : (file : VirtualFile) (g : Gui S) → Fits g → IsValid (view_file ops file g)
    unfolding view_file
    view_file-IsValid file g v = elim (Option-cases (ops.read_file g.sys (full_path file g))) [
      | inl e ↦ rw (e, view_file) (ok v)
      | inr (content, e) ↦
          let viewed = record g { viewer_title = file.name; viewer_content = content } in
          rw (e, view_file) (ok (show-Fits ops roomy 3 viewed (omega arith) v))
    ]

    pub files_key-IsValid :
        (scancode c : ℕ) (g : Gui S) → Fits g → IsValid (files_key ops scancode c g)
    unfolding files_key
    files_key-IsValid scancode c g v =
        let (w, m, (f, n), s, t, i) = v in
        let selected = g.dir_files g.file_selected_index in
        elim (Bool-cases (scancode == 0x50)) [
          | inl e12 ↦
              rw (e12, files_key)
                (elim (Bool-cases (ltb (g.file_selected_index + 1) g.file_count)) [
                  | inl e13 ↦ rw (e13, files_key) (ok (w, m, (ground (arith, n.few), n), s, t, i))
                  | inr e13 ↦ rw (e13, files_key) (ok v)
                ])
          | inr e12 ↦
              rw (e12, files_key)
                (elim (Bool-cases (scancode == 0x48)) [
                  | inl e14 ↦
                      rw (e14, files_key)
                        (elim (Bool-cases (ltb 0 g.file_selected_index)) [
                          | inl e15 ↦ rw (e15, files_key) (ok (w, m, (omega arith, n), s, t, i))
                          | inr e15 ↦ rw (e15, files_key) (ok v)
                        ])
                  | inr e14 ↦
                      rw (e14, files_key)
                        (elim (Bool-cases (c == 10)) [
                          | inl e16 ↦
                              rw (e16, files_key)
                                (elim (Bool-cases (ltb 0 g.file_count)) [
                                  | inl e17 ↦
                                      rw (e17, files_key)
                                        (elim (Bool-cases (selected.is_dir)) [
                                          | inl e18 ↦
                                              rw (e18, files_key)
                                                (enter_dir-IsValid selected g
                                                  (n.names g.file_selected_index) v)
                                          | inr e18 ↦
                                              rw (e18, files_key) (view_file-IsValid selected g v)
                                        ])
                                  | inr e17 ↦ rw (e17, files_key) (ok v)
                                ])
                          | inr e16 ↦
                              rw (e16, files_key)
                                (elim (Bool-cases (c == 8)) [
                                  | inl e19 ↦
                                      rw (e19, files_key)
                                        (elim (Bool-cases (same_text g.current_dir (codes "/"))) [
                                          | inl e20 ↦ rw (e20, files_key) (ok v)
                                          | inr e20 ↦
                                              rw (e20, files_key)
                                                (let (w, m, (f, n), s, t, i) =
                                                    refresh_file_list-Fits ops roomy
                                                      (record g { current_dir = codes "/" })
                                                      (moved-Fits ops roomy (codes "/") g
                                                        (omega arith) v) in
                                                  ok (w, m, (omega arith, n), s, t, i))
                                        ])
                                  | inr e19 ↦ rw (e19, files_key) (ok v)
                                ])
                        ])
                ])
        ]

    pub services_key-IsValid :
        (scancode c : ℕ) (g : Gui S) → Fits g → IsValid (services_key ops scancode c g)
    unfolding services_key
    services_key-IsValid scancode c g v =
        let (w, m, f, (s, n), t, i) = v in
        let selected = g.sys_services g.service_selected_index in
        elim (Bool-cases (scancode == 0x50)) [
          | inl e21 ↦
              rw (e21, services_key)
                (elim (Bool-cases (ltb (g.service_selected_index + 1) g.service_count)) [
                  | inl e22 ↦ rw (e22, services_key) (ok (w, m, f, (ground arith, n), t, i))
                  | inr e22 ↦ rw (e22, services_key) (ok v)
                ])
          | inr e21 ↦
              rw (e21, services_key)
                (elim (Bool-cases (scancode == 0x48)) [
                  | inl e23 ↦
                      rw (e23, services_key)
                        (elim (Bool-cases (ltb 0 g.service_selected_index)) [
                          | inl e24 ↦ rw (e24, services_key) (ok (w, m, f, (omega arith, n), t, i))
                          | inr e24 ↦ rw (e24, services_key) (ok v)
                        ])
                  | inr e23 ↦
                      rw (e23, services_key)
                        (elim (Bool-cases (c == 10)) [
                          | inl e25 ↦
                              rw (e25, services_key)
                                (elim (Bool-cases (ltb 0 g.service_count)) [
                                  | inl e26 ↦
                                      rw (e26, services_key)
                                        (ok (
                                          refresh_services_list-Fits ops roomy
                                            (record g {
                                              sys = ops.toggle_service selected.name g.sys;
                                            })
                                            v))
                                  | inr e26 ↦ rw (e26, services_key) (ok v)
                                ])
                          | inr e25 ↦ rw (e25, services_key) (ok v)
                        ])
                ])
        ]

    pub input_key-IsValid : (c : ℕ) (g : Gui S) → Fits g → IsValid (input_key ops c g)
    unfolding input_key
    input_key-IsValid c g v =
        let (w, m, f, s, t, i) = v in
        elim (Bool-cases (c == 10)) [
          | inl e27 ↦
              rw (e27, input_key)
                (let (w, m, f, s, t, i) = term_execute-Fits ops g.term_input g v in
                  ok (w, m, f, s, t, omega arith))
          | inr e27 ↦
              rw (e27, input_key)
                (elim (Bool-cases (c == 8)) [
                  | inl e28 ↦
                      rw (e28, input_key)
                        (elim (Bool-cases (ltb 0 (length g.term_input))) [
                          | inl e29 ↦
                              rw (e29, input_key)
                                (ok (
                                  w,
                                  m,
                                  f,
                                  s,
                                  t,
                                  omega (arith, take-le (length g.term_input - 1) g.term_input),
                                ))
                          | inr e29 ↦ rw (e29, input_key) (ok v)
                        ])
                  | inr e28 ↦
                      rw (e28, input_key)
                        (elim (Bool-cases (not (c == 0) && ltb (length g.term_input) 40)) [
                          | inl e30 ↦
                              rw (e30, input_key)
                                (ok (
                                  w,
                                  m,
                                  f,
                                  s,
                                  t,
                                  ground (arith, length-append g.term_input (c ∷ [])),
                                ))
                          | inr e30 ↦ rw (e30, input_key) (ok v)
                        ])
                ])
        ]
