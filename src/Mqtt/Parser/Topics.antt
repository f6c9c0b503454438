-- ===== src/Mqtt/Parser/Topics.antt =====
-- The topics that `Parse` of internal/mqtt/parser.go accepts, against the format that its comment
-- gives: fb/b/{chip_id}/f/{packet_type}.
use flybeeper_com_map_fanet.Prelude.{
  ℕ, ◌≡◌, ◌≢◌, ◌↔◌, refl, ap, ◌∙◌, sym, List, [], ◌∷◌, ◌++◌, arith, All, bytes_eq, bytes_eq→eq,
}
use flybeeper_com_map_fanet.Mqtt.Bytes.{ok}
use flybeeper_com_map_fanet.Mqtt.Parser.Envelope.{Topic, topic_of_parts, split_topic, split_step}
use mathlib.Core.List.{append-nil}

abbrev pub IsPart : List ℕ → Type 0
IsPart = All (λ c. c ≢ b'/')

-- The topic of a chip and a packet type.
unfoldable pub topic_text : List ℕ → List ℕ → List ℕ
topic_text chip packet = b'f' ∷ b'b' ∷ b'/' ∷ b'b' ∷ b'/' ∷ (chip ++ (b'/' ∷ b'f' ∷ b'/' ∷ packet))

-- The format in the comment of `Parse`.
abbrev pub IsTopic : Topic → List ℕ → Type 0
IsTopic t topic =
    (topic ≡ topic_text t.chip_id t.packet_type) × IsPart t.chip_id × IsPart t.packet_type

abbrev slashed : List (List ℕ) → List ℕ
slashed [] = []
slashed (part ∷ parts) = (b'/' ∷ part) ++ slashed parts

-- The parts with a slash between each two of them.
abbrev join : List (List ℕ) → List ℕ
join [] = []
join (part ∷ parts) = part ++ slashed parts

join-split_step :
    (c : ℕ) (parts : List (List ℕ)) → parts ≢ [] → join (split_step c parts) ≡ c ∷ join parts
unfolding split_step
join-split_step c [] h = absurd (h refl)
join-split_step c (part ∷ parts) h = ground arith

split_topic-ne-nil : (s : List ℕ) → split_topic s ≢ []
unfolding split_topic split_step
split_topic-ne-nil [] = ground arith
split_topic-ne-nil (c ∷ cs) = ground (arith, split_topic-ne-nil cs)

join-split_topic : (s : List ℕ) → join (split_topic s) ≡ s
unfolding split_topic
join-split_topic [] = refl
join-split_topic (c ∷ cs) =
    join-split_step c (split_topic cs) (split_topic-ne-nil cs) ∙ ap (◌∷◌ c) (join-split_topic cs)

split_step-IsPart :
    (c : ℕ) (parts : List (List ℕ))
    → parts ≢ []
    → All IsPart parts
    → All IsPart (split_step c parts)
unfolding split_step
split_step-IsPart c [] n h = absurd (n refl)
split_step-IsPart c (part ∷ parts) n h = ground arith

split_topic-IsPart : (s : List ℕ) → All IsPart (split_topic s)
unfolding split_topic
split_topic-IsPart [] = (tt, tt)
split_topic-IsPart (c ∷ cs) =
    split_step-IsPart c (split_topic cs) (split_topic-ne-nil cs) (split_topic-IsPart cs)

split_step-slash : (parts : List (List ℕ)) → parts ≢ [] → split_step b'/' parts ≡ [] ∷ parts
unfolding split_step
split_step-slash [] h = absurd (h refl)
split_step-slash (part ∷ parts) h = refl

split_topic-part :
    (xs ys : List ℕ) → IsPart xs → split_topic (xs ++ (b'/' ∷ ys)) ≡ xs ∷ split_topic ys
unfolding split_topic split_step
split_topic-part [] ys h = split_step-slash (split_topic ys) (split_topic-ne-nil ys)
split_topic-part (x ∷ xs) ys h = ground (arith, split_topic-part xs ys)

split_topic-last : (xs : List ℕ) → IsPart xs → split_topic xs ≡ xs ∷ []
unfolding split_topic split_step
split_topic-last [] h = refl
split_topic-last (x ∷ xs) h = ground (arith, split_topic-last xs)

-- The five parts of an accepted topic.
topic_of_parts-ok :
    (parts : List (List ℕ)) (t : Topic)
    → topic_of_parts parts ≡ ok t
    → parts ≡ (b'f' ∷ b'b' ∷ []) ∷ (b'b' ∷ []) ∷ t.chip_id ∷ (b'f' ∷ []) ∷ t.packet_type ∷ []
unfolding topic_of_parts
topic_of_parts-ok (p0 ∷ p1 ∷ p2 ∷ p3 ∷ p4 ∷ []) t h = ground (
  arith,
  bytes_eq→eq p0 (b'f' ∷ b'b' ∷ []),
  bytes_eq→eq p1 (b'b' ∷ []),
  bytes_eq→eq p3 (b'f' ∷ []),
)
topic_of_parts-ok _ t h = cc

split_topic-topic_text :
    (chip packet : List ℕ)
    → IsPart chip
    → IsPart packet
    → split_topic (topic_text chip packet)
      ≡ (b'f' ∷ b'b' ∷ []) ∷ (b'b' ∷ []) ∷ chip ∷ (b'f' ∷ []) ∷ packet ∷ []
unfolding topic_text
split_topic-topic_text chip packet hc hp =
    split_topic-part (b'f' ∷ b'b' ∷ []) _ (omega arith)
    ∙ ap (◌∷◌ (b'f' ∷ b'b' ∷ [])) (
        split_topic-part (b'b' ∷ []) _ (omega arith)
        ∙ ap (◌∷◌ (b'b' ∷ [])) (
            split_topic-part chip _ hc
            ∙ ap (◌∷◌ chip) (
                split_topic-part (b'f' ∷ []) packet (omega arith)
                ∙ ap (◌∷◌ (b'f' ∷ [])) (split_topic-last packet hp))))

join-topic_text :
    (chip packet : List ℕ)
    → join ((b'f' ∷ b'b' ∷ []) ∷ (b'b' ∷ []) ∷ chip ∷ (b'f' ∷ []) ∷ packet ∷ [])
      ≡ topic_text chip packet
unfolding topic_text
join-topic_text chip packet = simp append-nil

-- `Parse` accepts a topic with a chip and a packet type exactly when the topic is
-- fb/b/{chip}/f/{type}, where neither the chip nor the type holds a slash.
pub topic_iff :
    (topic : List ℕ) (t : Topic) → (topic_of_parts (split_topic topic) ≡ ok t) ↔ IsTopic t topic
unfolding topic_of_parts bytes_eq
topic_iff topic t = (
  λ h.
      let parts = topic_of_parts-ok (split_topic topic) t h in
      let good = rw parts at (split_topic-IsPart topic) in
      (
        sym (join-split_topic topic) ∙ ap join parts ∙ join-topic_text t.chip_id t.packet_type,
        good.1.1.0,
        good.1.1.1.1.0,
      ),
  λ h. rw (h.0, split_topic-topic_text t.chip_id t.packet_type h.1 h.2),
)
