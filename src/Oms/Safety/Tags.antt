-- ===== src/Oms/Safety/Tags.antt =====
-- The state OMS_TAG_DATA, letter by letter.
use elfloader3_elfs_archive.Prelude.{
  ℕ, ◌+◌, ◌*◌, ◌≤◌, ◌≡◌, refl, sym, ap, ◌∙◌, Bytes, some, arith, true, length, ◌==◌, ==→eq,
  if_cases, if◌then◌else◌,
}
use elfloader3_elfs_archive.Oms.State.{ParseState, ViewData, Env, rbyte}
use elfloader3_elfs_archive.Oms.Tags.{argument_size, late_argument_size}
use elfloader3_elfs_archive.Oms.TagData.{tag_data, tag_data_late}
use elfloader3_elfs_archive.Oms.Shape.{AtTag, Safe}
use elfloader3_elfs_archive.Oms.Safety.Arguments.{
  data_d-Safe, data_s-Safe, data_y-Safe, data_j-Safe, data_k-Safe, data_r-Safe, data_i-Safe,
  data_x-Safe, data_h-Safe, data_o-Safe, data_small_k-Safe, data_z-Safe, data_at-Safe,
  data_small_x-Safe, text-Safe, begin_field-Safe, continue_field-Safe,
}

module _ (env : Env) (oms : Bytes) (vd0 : ViewData) (fits : vd0.oms_wanted ≤ length oms)
    (tag : AtTag oms vd0) where
  open tag use {letter, first, size, reads, starts, has_size, awaited}

  -- The letter settles how many bytes were waited for.
  stands :
      (c k : ℕ)
      → (letter == c) ≡ true
      → argument_size (first == 0x0D) c ≡ some k
      → vd0.oms_pos + 1 + k ≡ vd0.oms_wanted
  stands c k is_c c_size =
      let same : some size ≡ some k =
        sym has_size ∙ ap (argument_size (first == 0x0D)) (==→eq letter c is_c) ∙ c_size in
      let e : size ≡ k = cc in omega arith

  tag_data_late-Safe :
      late_argument_size letter ≡ some size
      → Safe oms
          (4 * vd0.oms_wanted + 1)
          (tag_data_late env oms (record vd0 { oms_pos = vd0.oms_pos + 1 }) letter)
  unfolding tag_data_late argument_size
  tag_data_late-Safe late =
      let S = Safe oms (4 * vd0.oms_wanted + 1) in
      let i = letter in
      let vd = record vd0 { oms_pos = vd0.oms_pos + 1 } in
      let text = λ (s : ParseState). text-Safe env oms vd fits i s in
      let begins = λ (extra : ℕ) (s : ParseState). begin_field-Safe env oms vd fits i extra s in
      let continues = λ (s : ParseState). continue_field-Safe env oms vd fits i s in
      if_cases S (i == b'c')
        (λ e. begins 2 ParseState.tag_c_stage3 (λ a h. h) refl (stands b'c' 2 e refl))
        λ nc.
          if_cases S (i == b'r')
            (λ e. begins 2 ParseState.tag_r_stage3 (λ a h. h) refl (stands b'r' 2 e refl))
            λ nr.
              if_cases S (i == b's')
                (λ e. begins 3 ParseState.tag_s_stage3 (λ a h. h) refl (stands b's' 2 e refl))
                λ ns.
                  if_cases S (i == b'o') (λ e. data_o-Safe env oms vd fits (stands b'o' 2 e refl))
                    λ no.
                      if_cases S (i == b'i')
                        (λ e.
                          continues ParseState.tag_i_stage3 (λ a h. h) refl (stands b'i' 2 e refl))
                        λ ni.
                          if_cases S (i == b'k')
                            (λ e. data_small_k-Safe env oms vd fits (stands b'k' 3 e refl))
                            λ nk.
                              if_cases S (i == b'L')
                                (λ e.
                                  text ParseState.tag_L_stage3 (λ a h. h) refl
                                    (stands b'L' 2 e refl))
                                λ nL.
                                  if_cases S (i == b'^')
                                    (λ e.
                                      text ParseState.tag_x5e_stage3 (λ a h. h) refl
                                        (stands b'^' 2 e refl))
                                    λ ncaret.
                                      if_cases S (i == b'P')
                                        (λ e.
                                          text ParseState.tag_P_stage3 (λ a h. h) refl
                                            (stands b'P' 2 e refl))
                                        λ nP.
                                          if_cases S (i == b'R')
                                            (λ e.
                                              data_r-Safe env oms vd fits (stands b'R' 2 e refl))
                                            λ nR.
                                              if_cases S (i == b'Z')
                                                (λ e.
                                                  data_z-Safe env oms vd fits
                                                    (stands b'Z' 2 e refl))
                                                λ nZ.
                                                  if_cases S (i == b'@')
                                                    (λ e.
                                                      data_at-Safe env oms vd fits
                                                        (stands b'@' 4 e refl))
                                                    λ nat. absurd (
                                                      cc (
                                                        rw
                                                          (
                                                            nc, nr, ns, no, ni, nk, nL, ncaret, nP,
                                                            nR, nZ, nat,
                                                          )
                                                          at late))

  pub tag_data-Safe : Safe oms (4 * vd0.oms_wanted + 1) (tag_data env oms vd0)
  unfolding tag_data rbyte argument_size
  tag_data-Safe =
      let S = Safe oms (4 * vd0.oms_wanted + 1) in
      let i = letter in
      let vd = record vd0 { oms_pos = vd0.oms_pos + 1 } in
      let text = λ (s : ParseState). text-Safe env oms vd fits i s in
      let begins = λ (extra : ℕ) (s : ParseState). begin_field-Safe env oms vd fits i extra s in
      let continues = λ (s : ParseState). continue_field-Safe env oms vd fits i s in
      rw reads (
        if_cases S (i == b'A')
          (λ e. text ParseState.tag_A_stage3 (λ a h. h) refl (stands b'A' 2 e refl))
          λ nA.
            if_cases S (i == b'D') (λ e. data_d-Safe env oms vd fits (stands b'D' 2 e refl))
              λ nD.
                if_cases S (i == b'S') (λ e. data_s-Safe env oms vd fits (stands b'S' 4 e refl))
                  λ nS.
                    if_cases S (i == b'T')
                      (λ e. text ParseState.tag_T_stage3 (λ a h. h) refl (stands b'T' 2 e refl))
                      λ nT.
                        if_cases S (i == b'Y')
                          (λ e. data_y-Safe env oms vd fits (stands b'Y' 1 e refl))
                          λ nY.
                            if_cases S (i == b'I')
                              (λ e. data_i-Safe env oms vd fits (stands b'I' 8 e refl))
                              λ nI.
                                if_cases S (i == b'J')
                                  (λ e. data_j-Safe env oms vd fits (stands b'J' 4 e refl))
                                  λ nJ.
                                    if_cases S (i == b'K')
                                      (λ e. data_k-Safe env oms vd fits (stands b'K' 6 e refl))
                                      λ nK.
                                        if_cases S (i == b'X')
                                          (λ e. data_x-Safe env oms vd fits (stands b'X' 4 e refl))
                                          λ nX.
                                            if_cases S (i == b'h')
                                              (λ e.
                                                data_h-Safe env oms vd fits (stands b'h' 2 e refl))
                                              λ nh.
                                                if_cases S (i == b'e')
                                                  (λ e.
                                                    continues ParseState.tag_e_stage3 (λ a h. h)
                                                      refl (stands b'e' 2 e refl))
                                                  λ ne.
                                                    if_cases S (i == b'p')
                                                      (λ e.
                                                        begins 2 ParseState.tag_p_stage3 (λ a h. h)
                                                          refl (stands b'p' 2 e refl))
                                                      λ np.
                                                        if_cases S (i == b'u')
                                                          (λ e.
                                                            begins 2 ParseState.tag_u_stage3
                                                            (λ a h. h) refl (stands b'u' 2 e refl))
                                                          λ nu.
                                                            if_cases S (i == b'x')
                                                            (λ e.
                                                            data_small_x-Safe env oms vd fits first
                                                            starts
                                                            (stands b'x'
                                                            (if first == 0x0D then 2 else 3) e
                                                            refl))
                                                            λ nx. tag_data_late-Safe (
                                                            rw
                                                            (
                                                            nA, nD, nS, nT, nY, nI, nJ, nK, nX, nh,
                                                            ne, np, nu, nx,
                                                            )
                                                            at has_size))
