-- ===== src/PageStack/Examples.antt =====
-- A stack with places for three pages.
use elfloader3_elfs_archive.Prelude.{ℕ, ◌≡◌, refl, [], ◌∷◌, ◌++◌, some, ok, ◌>>=◌, arith}
use elfloader3_elfs_archive.PageStack.Clock.{DateTime, page_id}
use elfloader3_elfs_archive.PageStack.Clock.Seconds.{
  IsDateTime, month_length, seconds_since_2000, page_id-seconds,
}
use elfloader3_elfs_archive.PageStack.State.{Page, zero_page, Stack, push_page_to_stack}
use elfloader3_elfs_archive.PageStack.Navigation.{
  IsStack, kept, dropped, live_ids, go_back, go_forward,
}
use elfloader3_elfs_archive.PageStack.Navigation.Push.{Visit, push_page_to_stack-IsStack}
use elfloader3_elfs_archive.PageStack.Navigation.BackForward.{at_top, go_forward-go_back}

abbrev page : ℕ → Page
page n = record zero_page { id = n }

-- The pages 7, 8 and 9, of which 9 was left by "back".
abbrev visited : Stack
visited = record { pages = page 7 ∷ page 8 ∷ page 9 ∷ zero_page ∷ []; stack_top = 2; unlinked = [] }

visited-IsStack : IsStack 3 visited (page 7 ∷ page 8 ∷ []) (page 9 ∷ [])
visited-IsStack = record {
  spare = zero_page;
  unused = refl;
  layout = refl;
  top = refl;
  room = refl;
}

-- All three places are taken.
abbrev full : Stack
full = at_top 3 visited

full-IsStack : IsStack 3 full (page 7 ∷ page 8 ∷ page 9 ∷ []) []
full-IsStack = record { spare = zero_page; unused = refl; layout = refl; top = refl; room = refl }

push_page_to_stack-IsStack_example :
    Visit 3 10 full
      (kept 3 (page 7 ∷ page 8 ∷ page 9 ∷ []))
      (dropped 3 (page 7 ∷ page 8 ∷ page 9 ∷ []) ++ live_ids [])
      (push_page_to_stack 3 10 full)
push_page_to_stack-IsStack_example =
    push_page_to_stack-IsStack 3 10 full (page 7 ∷ page 8 ∷ page 9 ∷ []) [] (omega arith)
      full-IsStack

go_forward-go_back_example : (go_back 3 visited >>= λ r. go_forward 3 (r.1)) ≡ ok (some 8, visited)
go_forward-go_back_example =
    go_forward-go_back 3 visited [] (page 7) (page 8) (page 9 ∷ []) (λ e. omega (arith, e))
      visited-IsStack

-- Noon of the 29th of February 2008.
abbrev leap_day : DateTime
leap_day = record { year = 2008; month = 2; day = 29; hour = 12; min = 0; sec = 0 }

leap_day-IsDateTime : IsDateTime leap_day
unfolding month_length
leap_day-IsDateTime = record {
  century = omega arith;
  year_bound = omega arith;
  month_low = omega arith;
  month_high = omega arith;
  day_low = omega arith;
  day_high = omega arith;
  hour_bound = omega arith;
  min_bound = omega arith;
  sec_bound = omega arith;
}

page_id-seconds_example : page_id leap_day ≡ ok (seconds_since_2000 leap_day)
page_id-seconds_example = page_id-seconds leap_day leap_day-IsDateTime
