-- ===== src/PageStack/Navigation/Start.antt =====
-- The stack that the browser starts with: `InitUrlStack`.
use elfloader3_elfs_archive.Prelude.{
  ℕ, zero, suc, ◌+◌, ◌≡◌, refl, ap, ◌∙◌, [], ◌∷◌, ◌++◌, length-replicate, replicate, arith,
}
use elfloader3_elfs_archive.PageStack.State.{Page, zero_page, init_url_stack}
use elfloader3_elfs_archive.PageStack.Navigation.{IsStack}

replicate-snoc : (n : ℕ) (p : Page) → replicate (suc n) p ≡ replicate n p ++ p ∷ []
replicate-snoc zero p = refl
replicate-snoc (suc n) p = ap (λ ps. p ∷ ps) (replicate-snoc n p)

add_one : (n : ℕ) → n + 1 ≡ suc n
add_one n = omega arith

-- After `InitUrlStack` with places for `size` pages, no page is below the top and `size` unused pages
-- are behind it.
pub init_url_stack-IsStack :
    (size : ℕ) → IsStack size (init_url_stack size) [] (replicate size zero_page)
unfolding init_url_stack
init_url_stack-IsStack size = record {
  spare = zero_page;
  unused = refl;
  layout = ap (λ n. replicate n zero_page) (add_one size) ∙ replicate-snoc size zero_page;
  top = refl;
  room = omega (arith, length-replicate size zero_page);
}
