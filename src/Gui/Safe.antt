-- ===== src/Gui/Safe.antt =====
-- `gui_handle_key` of src/kernel/gui.cpp keeps the desktop in its bounds.
use trieternal_x_os.Base.{
  ℕ, ◌<◌, ◌≢◌, Bool, false, not, ◌||◌, arith, ◌==◌, if◌then◌else◌, Bool-cases, inl, inr,
}
use trieternal_x_os.Gui.{Gui, System, show, stop}
use trieternal_x_os.Gui.Keys.{
  choose, function_key, handle_key, menu_key, next_entry, previous_entry, window_key,
}
use trieternal_x_os.Gui.Bounds.{
  Fits, IsRoomy, refresh_file_list-Fits, refresh_services_list-Fits, show-Fits,
}
use trieternal_x_os.Gui.Windows.{
  IsValid, IsValid-if, ok, files_key-IsValid, services_key-IsValid, input_key-IsValid,
}

next_entry-lt : (i : ℕ) → i < 7 → next_entry i < 7
next_entry-lt i lt = ground arith

next_entry-ne : (i : ℕ) → i < 7 → i ≢ 4 → next_entry i ≢ 4
next_entry-ne i lt ne = ground arith

previous_entry-lt : (i : ℕ) → i < 7 → previous_entry i < 7
previous_entry-lt i lt = ground arith

previous_entry-ne : (i : ℕ) → i < 7 → previous_entry i ≢ 4
previous_entry-ne i lt = ground arith

first_or-lt : (b : Bool) (i : ℕ) → i < 7 → (if b then 0 else i) < 7
first_or-lt b i lt = ground arith

first_or-ne : (b : Bool) (i : ℕ) → i ≢ 4 → (if b then 0 else i) ≢ 4
first_or-ne b i ne = ground arith

module _ {S : Type 0} where
  module _ (ops : System S) (roomy : IsRoomy ops) where
    choose-IsValid : (g : Gui S) → Fits g → IsValid (choose ops g)
    unfolding choose
    choose-IsValid g v = elim (Bool-cases (g.start_menu_selected == 0)) [
      | inl e1 ↦ rw (e1, choose) (ok (show-Fits ops roomy 4 g (omega arith) v))
      | inr e1 ↦
          rw (e1, choose)
            (elim (Bool-cases (g.start_menu_selected == 1)) [
              | inl e2 ↦
                  rw (e2, choose)
                    (ok (
                      refresh_file_list-Fits ops roomy (show 1 g)
                        (show-Fits ops roomy 1 g (omega arith) v)))
              | inr e2 ↦
                  rw (e2, choose)
                    (elim (Bool-cases (g.start_menu_selected == 2)) [
                      | inl e3 ↦
                          rw (e3, choose)
                            (ok (
                              refresh_services_list-Fits ops roomy (show 2 g)
                                (show-Fits ops roomy 2 g (omega arith) v)))
                      | inr e3 ↦
                          rw (e3, choose)
                            (elim (Bool-cases (g.start_menu_selected == 3)) [
                              | inl e4 ↦
                                  rw (e4, choose) (ok (show-Fits ops roomy 0 g (omega arith) v))
                              | inr e4 ↦
                                  rw (e4, choose)
                                    (elim (Bool-cases (g.start_menu_selected == 5)) [
                                      | inl e5 ↦ rw (e5, choose) (ok v)
                                      | inr e5 ↦
                                          rw (e5, choose)
                                            (elim (Bool-cases (g.start_menu_selected == 6)) [
                                              | inl e6 ↦ rw (e6, choose) (ok v)
                                              | inr e6 ↦ rw (e6, choose) (ok v)
                                            ])
                                    ])
                            ])
                    ])
            ])
    ]

    menu_key-IsValid :
        (scancode c : ℕ) (g rest : Gui S)
        → Fits g
        → IsValid rest
        → IsValid (menu_key ops scancode c g rest)
    unfolding menu_key
    menu_key-IsValid scancode c g rest v r =
        let (w, (m, ne), f, s, t, i) = v in
        elim (Bool-cases (scancode == 0x50)) [
          | inl e7 ↦
              rw (e7, menu_key)
                (ok (
                  w,
                  (next_entry-lt g.start_menu_selected m, next_entry-ne g.start_menu_selected m ne),
                  f,
                  s,
                  t,
                  i,
                ))
          | inr e7 ↦
              rw (e7, menu_key)
                (elim (Bool-cases (scancode == 0x48)) [
                  | inl e8 ↦
                      rw (e8, menu_key)
                        (ok (
                          w,
                          (
                            previous_entry-lt g.start_menu_selected m,
                            previous_entry-ne g.start_menu_selected m,
                          ),
                          f,
                          s,
                          t,
                          i,
                        ))
                  | inr e8 ↦
                      rw (e8, menu_key)
                        (elim (Bool-cases (c == 27 || scancode == 0x01)) [
                          | inl e9 ↦ rw (e9, menu_key) (ok v)
                          | inr e9 ↦
                              rw (e9, menu_key)
                                (elim (Bool-cases (c == 10)) [
                                  | inl e10 ↦
                                      rw (e10, menu_key)
                                        (ok (
                                          (choose-IsValid (record g { start_menu_open = false })
                                            v).fits))
                                  | inr e10 ↦ rw (e10, menu_key) (r)
                                ])
                        ])
                ])
        ]

    window_key-IsValid :
        (scancode c : ℕ) (g : Gui S) → Fits g → IsValid (window_key ops scancode c g)
    unfolding window_key
    window_key-IsValid scancode c g v =
        let (w, m, f, s, t, i) = v in
        elim (Bool-cases (g.window_visible g.active_window)) [
          | inl e31 ↦
              rw (e31, window_key)
                (elim (Bool-cases (g.active_window == 1)) [
                  | inl e32 ↦ rw (e32, window_key) (files_key-IsValid ops roomy scancode c g v)
                  | inr e32 ↦
                      rw (e32, window_key)
                        (elim (Bool-cases (g.active_window == 2)) [
                          | inl e33 ↦
                              rw (e33, window_key) (services_key-IsValid ops roomy scancode c g v)
                          | inr e33 ↦
                              rw (e33, window_key)
                                (elim (Bool-cases (g.active_window == 3)) [
                                  | inl e34 ↦
                                      rw (e34, window_key)
                                        (elim (Bool-cases
                                          (c == 8 || (c == 27 || scancode == 0x01))) [
                                            | inl e35 ↦
                                                rw (e35, window_key)
                                                  (ok (omega arith, m, f, s, t, i))
                                            | inr e35 ↦ rw (e35, window_key) (ok v)
                                          ])
                                  | inr e34 ↦
                                      rw (e34, window_key)
                                        (elim (Bool-cases (g.active_window == 4)) [
                                          | inl e36 ↦
                                              rw (e36, window_key)
                                                (input_key-IsValid ops roomy c g v)
                                          | inr e36 ↦ rw (e36, window_key) (ok v)
                                        ])
                                ])
                        ])
                ])
          | inr e31 ↦ rw (e31, window_key) (ok v)
        ]

    function_key-IsValid :
        (scancode c : ℕ) (g : Gui S) → Fits g → IsValid (function_key ops scancode c g)
    unfolding function_key stop
    function_key-IsValid scancode c g v =
        let (w, m, f, s, t, i) = v in
        elim (Bool-cases (scancode == 0x3B)) [
          | inl e37 ↦ rw (e37, function_key) (ok (show-Fits ops roomy 0 g (omega arith) v))
          | inr e37 ↦
              rw (e37, function_key)
                (elim (Bool-cases (scancode == 0x3C)) [
                  | inl e38 ↦
                      rw (e38, function_key)
                        (ok (
                          refresh_file_list-Fits ops roomy (show 1 g)
                            (show-Fits ops roomy 1 g (omega arith) v)))
                  | inr e38 ↦
                      rw (e38, function_key)
                        (elim (Bool-cases (scancode == 0x3D)) [
                          | inl e39 ↦
                              rw (e39, function_key)
                                (ok (
                                  refresh_services_list-Fits ops roomy (show 2 g)
                                    (show-Fits ops roomy 2 g (omega arith) v)))
                          | inr e39 ↦
                              rw (e39, function_key)
                                (elim (Bool-cases (scancode == 0x3E)) [
                                  | inl e40 ↦
                                      rw (e40, function_key)
                                        (elim (Bool-cases (g.active_window == 3)) [
                                          | inl e41 ↦
                                              rw (e41, function_key)
                                                (ok (omega arith, m, f, s, t, i))
                                          | inr e41 ↦
                                              rw (e41, function_key)
                                                (ok (show-Fits ops roomy 3 g (omega arith) v))
                                        ])
                                  | inr e40 ↦
                                      rw (e40, function_key)
                                        (elim (Bool-cases (scancode == 0x01)) [
                                          | inl e42 ↦ rw (e42, function_key) (ok v)
                                          | inr e42 ↦
                                              rw (e42, function_key)
                                                (window_key-IsValid scancode c g v)
                                        ])
                                ])
                        ])
                ])
        ]

    pub handle_key-IsValid :
        (scancode c : ℕ) (g : Gui S) → IsValid g → IsValid (handle_key ops scancode c g)
    unfolding handle_key
    handle_key-IsValid scancode c g valid =
        let v = valid.fits in
        let (w, m, f, s, t, i) = v in
        let rest = function_key-IsValid scancode c g v in
        elim (Bool-cases (scancode == 0x3F)) [
          | inl e43 ↦
              rw (e43, handle_key)
                (ok (
                  w,
                  (
                    first_or-lt (not g.start_menu_open) g.start_menu_selected m.0,
                    first_or-ne (not g.start_menu_open) g.start_menu_selected m.1,
                  ),
                  f,
                  s,
                  t,
                  i,
                ))
          | inr e43 ↦
              rw (e43, handle_key)
                (IsValid-if g.start_menu_open
                  (menu_key ops scancode c g (function_key ops scancode c g))
                  (function_key ops scancode c g)
                  (menu_key-IsValid scancode c g (function_key ops scancode c g) v rest) rest)
        ]
