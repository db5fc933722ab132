-- ===== src/Metrics/Tags.antt =====
-- The label of an agent's tags, which setAgentMetrics of controlplane/metrics.go builds in a loop.
use Prim.Native.String.{◌++◌, ◌∷◌}
use text.Mathlib.TextLemmas.{nil-append, cons-append, append_assoc}
use opvic.Prelude.{◌≡◌, ◌≢◌, refl, sym, ◌∙◌, List, map, String, ◌==◌, eq_iff, arith, false}
use opvic.Metrics.{join, tags_text}

abbrev pub tag_text : String × String → String
tag_text (key, value) = key ++ ("=" ++ value)

append-ne-nil : (a b : String) → a ≢ "" → a ++ b ≢ ""
append-ne-nil String.[] b n = λ e. n refl
append-ne-nil (c ∷ s) b n = λ e. cc (sym (cons-append c s b) ∙ e)

tag_text-ne-nil : (t : String × String) → tag_text t ≢ ""
tag_text-ne-nil (String.[], v) =
    λ e. append-ne-nil "=" v (ground (arith, eq_iff "=" "")) (sym (nil-append ("=" ++ v)) ∙ e)
tag_text-ne-nil (c ∷ s, v) = λ e. cc (sym (cons-append c s ("=" ++ v)) ∙ e)

-- The first two texts of a join are joined first.
join-first :
    (sep a b : String) (l : List String)
    → join sep (List.◌∷◌ ((a ++ sep) ++ b) l) ≡ join sep (List.◌∷◌ a (List.◌∷◌ b l))
unfolding join
join-first sep a b List.[] = append_assoc a sep b
join-first sep a b (List.◌∷◌ c l) =
    rw (append_assoc a sep b, append_assoc a (sep ++ b), append_assoc sep b) refl

tags_text-filled :
    (tags : String) (l : List (String × String))
    → tags ≢ ""
    → tags_text tags l ≡ join "," (List.◌∷◌ tags (map tag_text l))
unfolding tags_text join
tags_text-filled tags List.[] n = refl
tags_text-filled tags (List.◌∷◌ (k, v) l) n =
    let f : (tags == "") ≡ false = ground (arith, eq_iff tags "", n) in
    rw
      (
        f,
        tags_text-filled ((tags ++ ",") ++ tag_text (k, v)) l
            (append-ne-nil (tags ++ ",") (tag_text (k, v)) (append-ne-nil tags "," n)),
      )
      (join-first "," tags (tag_text (k, v)) (map tag_text l))

-- The label has the tags in their order, each as its key, "=" and its value, separated by commas.
pub tags_text-join : (l : List (String × String)) → tags_text "" l ≡ join "," (map tag_text l)
unfolding tags_text join
tags_text-join List.[] = refl
tags_text-join (List.◌∷◌ (k, v) l) =
    rw (nil-append (tag_text (k, v)))
      (tags_text-filled (tag_text (k, v)) l (tag_text-ne-nil (k, v)))
