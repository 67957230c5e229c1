-- ===== src/Agent/Client/Retries.antt =====
-- The retries of a finish: which errors are retried, and where the loop ends.
use Prim.Native.String.{◌++◌}
use text.Mathlib.TextLemmas.{append_assoc}
use mc_prototype.Base.{
  ℕ, zero, suc, ◌+◌, ◌≤◌, ◌<◌, ◌⊎◌, Bool-cases, subst, ◌≡◌, refl, ◌∙◌, String, Option, none, some,
  Option-cases, inl, inr, Bool, true, false, arith, leb, if◌then◌else◌,
}
use mc_prototype.Text.{contains, has_prefix}
use mc_prototype.Text.Affixes.{contains-append}
use mc_prototype.Text.Decimal.{format_uint, write_digits, digit}
use native.Mathlib.Decide.{dec_lt}
use mc_prototype.Control.World.{Body}
use mc_prototype.Agent.Client.{
  Answer, answered, finish_error, should_retry_finish, report_rounds, report_finish,
  max_finish_retries,
}

-- A reply from 500 on is retried.
server_error_retried : (s : String) → should_retry_finish ("finish http server error: " ++ s) ≡ true
unfolding should_retry_finish
server_error_retried s =
    ground (arith, contains-append "finish http " "server error" (": " ++ s), split_message)
  where
    split_message :
        "finish http server error: " ++ s ≡ "finish http " ++ ("server error" ++ (": " ++ s))
    split_message =
        append_assoc "finish http server error" ": " s
        ∙ append_assoc "finish http " "server error" (": " ++ s)

abbrev client_error : ℕ → String
client_error status = "finish http client error: " ++ format_uint status

-- None of the statuses from `status` on, `left` in number, is retried.
none_retried : ℕ → ℕ → Bool
none_retried zero status = true
none_retried (suc left) status =
    if should_retry_finish (client_error status) then false else none_retried left (suc status)

none_retried_lem :
    (left status x : ℕ)
    → none_retried left status ≡ true
    → status ≤ x
    → x < status + left
    → should_retry_finish (client_error x) ≡ false
unfolding none_retried
none_retried_lem zero status x h le lt = absurd (omega arith)
none_retried_lem (suc left) status x h le lt =
    elim (Bool-cases (should_retry_finish (client_error status))) [
      | inl e ↦ ground (arith, h, e)
      | inr e ↦ elim (dec_lt status x) [
        | yes before ↦
            none_retried_lem left (suc status) x (ground (arith, h, e)) before (omega arith)
        | no after ↦ let here : x ≡ status = omega arith in rw here e
      ]
    ]

client_errors_final : none_retried 100 400 ≡ true
unfolding none_retried should_retry_finish format_uint contains has_prefix write_digits digit
client_errors_final = refl

client_error_final :
    (status : ℕ) → 400 ≤ status → status < 500 → should_retry_finish (client_error status) ≡ false
client_error_final status h k = none_retried_lem 100 400 status client_errors_final h k

-- A finish that the server answers with an error status is reported again exactly where the status
-- is 500 or more.
pub should_retry_finish-finish_error :
    (status : ℕ) (body : Body) (e : String)
    → finish_error (answered status body) ≡ some e
    → should_retry_finish e ≡ leb 500 status
unfolding finish_error
should_retry_finish-finish_error status body e h =
    ground (arith, server_error_retried (format_uint status), client_error_final status)

-- Attempt `k` fails in a way that is worth another attempt.
abbrev pub Retried : (ℕ → Answer) → ℕ → Type 0
Retried answers k =
    (e : String) × (finish_error (answers k) ≡ some e) × (should_retry_finish e ≡ true)

-- Attempt `k` succeeds, or fails in a way that is not worth another attempt.
abbrev pub Final : (ℕ → Answer) → ℕ → Type 0
Final answers k = (e : String) → finish_error (answers k) ≡ some e → should_retry_finish e ≡ false

report_rounds_retried :
    (left i : ℕ) (answers : ℕ → Answer) (last : Option String) (e : String)
    → finish_error (answers i) ≡ some e
    → should_retry_finish e ≡ true
    → report_rounds (suc left) i answers last ≡ report_rounds left (suc i) answers (some e)
unfolding report_rounds
report_rounds_retried left i answers last e failed again = ground (arith, failed, again)

report_rounds_ends :
    (left i : ℕ) (answers : ℕ → Answer) (last : Option String)
    → (left ≡ 0) ⊎ Final answers i
    → report_rounds (suc left) i answers last ≡ (suc i, finish_error (answers i))
unfolding report_rounds
report_rounds_ends left i answers last h = elim (Option-cases (finish_error (answers i))) [
  | inl e ↦ ground (arith, e)
  | inr (e, g) ↦ elim (Bool-cases (should_retry_finish e)) [
    | inl t ↦ elim h [
      | inl z ↦ rw z (ground (arith, g, t))
      | inr z ↦ let x = z e g in ground (arith, t, x)
    ]
    | inr t ↦ ground (arith, g, t)
  ]
]

-- The rounds up to attempt `p`, which is the last or a final one.
report_rounds_lem :
    (left i p : ℕ) (answers : ℕ → Answer) (last : Option String)
    → i ≤ p
    → p < i + left
    → ((k : ℕ) → i ≤ k → k < p → Retried answers k)
    → (suc p ≡ i + left) ⊎ Final answers p
    → report_rounds left i answers last ≡ (suc p, finish_error (answers p))
report_rounds_lem zero i p answers last le lt h z = absurd (omega arith)
report_rounds_lem (suc left) i p answers last le lt h z = elim (dec_lt i p) [
  | yes before ↦
      let (e, failed, again) = h i (omega arith) before in
      report_rounds_retried left i answers last e failed again
      ∙ report_rounds_lem left (suc i) p answers (some e) before (omega arith)
          (λ k a b. h k (omega arith) b) (elim z [ inl x ↦ inl (omega arith) | inr x ↦ inr x ])
  | no after ↦
      let here : p ≡ i = omega arith in
      rw here (
        report_rounds_ends left i answers last
          (elim z [ inl x ↦ inl (omega arith) | inr x ↦ inr (subst (Final answers) here x) ]))
]

-- A finish is tried again while an attempt fails in a way that is worth it, and 20 times at most: the
-- loop ends with the first attempt, of number `p` from 0 on, that is the twentieth, or succeeds, or
-- fails in another way; and the loop's error is that attempt's.
pub report_finish_ends :
    (p : ℕ) (answers : ℕ → Answer)
    → p < max_finish_retries
    → ((k : ℕ) → k < p → Retried answers k)
    → (suc p ≡ max_finish_retries) ⊎ Final answers p
    → report_finish answers ≡ (suc p, finish_error (answers p))
unfolding report_finish
report_finish_ends p answers lt h z =
    report_rounds_lem max_finish_retries 0 p answers none (omega arith) (omega arith)
      (λ k a b. h k b) (elim z [ inl x ↦ inl (omega arith) | inr x ↦ inr x ])
