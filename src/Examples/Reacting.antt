-- ===== src/Examples/Reacting.antt =====
-- internal/reactions: likes and views of one post.
use portfolio_backend.Base.{◌+◌, ◌≡◌, refl, List, [], ◌∷◌, true, false}
use portfolio_backend.Base.Int.{pos}
use portfolio_backend.Base.Text.{bytes, text_eq}
use portfolio_backend.Errors.{ok, err, internal}
use portfolio_backend.Database.{Session, round_trip, query, modify, refused, later}
use portfolio_backend.Base.Assoc.{lookup, insert}
use portfolio_backend.Reactions.Store.{
  referenced, insert_like, add_like, delete_like, remove_like, last_counted, set_counted,
  window_over, microseconds, counts, count_view, record_view,
}
use portfolio_backend.Reactions.Store.{view_count}
use portfolio_backend.Reactions.Totals.{after, counted_for, view_count-after}
use portfolio_backend.Reactions.Likes.{Reached, add_like-Reached, remove_like-Reached}
use portfolio_backend.Reactions.Views.{View, Spaced, counted_times, views-Spaced}
use portfolio_backend.Examples.Commenting.{at_noon}

program : Unit {0}
unfolding add_like insert_like referenced remove_like delete_like record_view count_view counts
    window_over microseconds last_counted set_counted counted_times modify round_trip query refused
    later lookup insert text_eq
program = tt

liked : Session
liked = (add_like (bytes "a-post") 7 at_noon).1

first_like : (add_like (bytes "a-post") 7 at_noon).0 ≡ ok true
unfolding program
first_like = refl

second_like : (add_like (bytes "a-post") 7 liked).0 ≡ ok false
unfolding program liked
second_like = refl

unlike : (remove_like (bytes "a-post") 7 liked).0 ≡ ok true
unfolding program liked
unlike = refl

unknown_post : (add_like (bytes "b-post") 7 at_noon).0 ≡ err internal
unfolding program
unknown_post = refl

add_like-Reached_example :
    Reached (bytes "a-post", 7) true true at_noon.db (add_like (bytes "a-post") 7 at_noon).1.db
add_like-Reached_example = add_like-Reached (bytes "a-post") 7 at_noon first_like

remove_like-Reached_example :
    Reached (bytes "a-post", 7) false true liked.db (remove_like (bytes "a-post") 7 liked).1.db
remove_like-Reached_example = remove_like-Reached (bytes "a-post") 7 liked unlike

abbrev four_views : List View
four_views =
    record { key = (bytes "a-post", 7); counted_at = 100999 }
    ∷ record { key = (bytes "a-post", 7); counted_at = 120000 }
    ∷ record { key = (bytes "a-post", 8); counted_at = 130000 }
    ∷ record { key = (bytes "a-post", 7); counted_at = 160000 }
    ∷ []

-- The times are compared in microseconds: the third view of visitor 7 is counted, though 59001 ns
-- after the first.
two_counted :
    counted_times (pos 60000) (bytes "a-post", 7) four_views at_noon ≡ 100999 ∷ 160000 ∷ []
unfolding program
two_counted = refl

views-Spaced_example :
    Spaced 60000
      (last_counted (bytes "a-post", 7) at_noon.db.post_view_visitors)
      (counted_times (pos 60000) (bytes "a-post", 7) four_views at_noon)
views-Spaced_example = views-Spaced 60000 (bytes "a-post", 7) four_views at_noon

view_count-after_example :
    view_count (bytes "a-post") (after (pos 60000) (bytes "a-post") four_views at_noon).db
    ≡ view_count (bytes "a-post") at_noon.db
      + counted_for (pos 60000) (bytes "a-post") four_views at_noon
view_count-after_example = view_count-after (pos 60000) (bytes "a-post") four_views at_noon
