-- ===== src/TypeSafe/Tests.antt =====
-- The theorems on the verifier, with probabilities in hundredths.
use index_01_hook.Base.{ℕ, ◌≡◌, refl, true, false, none, some, List, [], ◌∷◌, ◌++◌, ltb, map}
use index_01_hook.Base.Int.{pos}
use index_01_hook.Base.Rows.{any_row}
use index_01_hook.Base.Text.{
  Text, codes, text_eq, byte_length, is_space, trim_space, to_lower, lower_rune,
}
use index_01_hook.Application.Item.{Item, task}
use index_01_hook.Application.Policy.{sort_strings}
use index_01_hook.Worker.Verifier.{accept}
use index_01_hook.TypeSafe.{
  noul, choice, Question, TypeSafeAnswer, TypeSafeResponse, response, Evaluation, lookup_answer,
  has_key, safe_question_identifier, valid_type_safe_answer, evaluate,
}
use index_01_hook.TypeSafe.Verify.{
  VerificationResult, verified_as, EvaluationState, TypeSafeVerifier, injection_key, item_key,
  route_key, support_keys, default_thresholds, verification_questions, supports, all_answered,
  supported, routed, judged, alias_state, verify,
}
use index_01_hook.TypeSafe.Decision.{Grounded, verify-accept}

abbrev same_rune : ℕ → ℕ
same_rune c = c

abbrev hundredths : ℕ → ℕ
hundredths n = n

abbrev milk : Item
milk = record {
  kind = task;
  title = codes "Buy milk";
  content = [];
  due = none;
  all_day = false;
  priority = pos 0;
  tags = [];
  project_alias = [];
}

abbrev likely : ℕ → TypeSafeAnswer ℕ
likely n = record {
  kind = noul;
  noul_value = some n;
  chosen = [];
  score_value = none;
  probabilities = [];
  confidence = none;
}

abbrev home : TypeSafeAnswer ℕ
home = record {
  kind = choice;
  noul_value = none;
  chosen = codes "home";
  score_value = none;
  probabilities = (codes "home", 95) ∷ (codes "no_match", 5) ∷ [];
  confidence = some 95;
}

abbrev answer : TypeSafeResponse ℕ
answer = record {
  model = codes "m";
  answers =
      map (λ key. (key, likely 95)) (item_key ∷ support_keys)
      ++ ((injection_key, likely 3) ∷ (route_key, home) ∷ []);
  input_tokens = 10;
  output_tokens = 5;
}

-- A client whose service always gives this answer.
abbrev client : EvaluationState → List (Text × Question) → Evaluation ℕ
client state questions = evaluate ltb hundredths (codes "m") (λ qs. response answer) questions

abbrev verifier : TypeSafeVerifier ℕ
verifier = record {
  enabled = true;
  client = some client;
  alias_descriptions = λ name. codes "things for home";
  thresholds = default_thresholds ltb hundredths;
}

abbrev homely : VerificationResult ℕ
homely = record {
  decision = accept;
  item = record milk { project_alias = codes "home" };
  reason = none;
  evidence = some answer;
}

homely_is :
    verify ltb hundredths same_rune verifier (codes "buy milk") milk (codes "home" ∷ [])
    ≡ verified_as homely
unfolding any_row text_eq byte_length is_space trim_space to_lower lower_rune sort_strings
    lookup_answer has_key safe_question_identifier valid_type_safe_answer evaluate
    verification_questions supports all_answered supported routed judged alias_state verify
homely_is = refl

verify-accept_example :
    Grounded ltb hundredths same_rune verifier milk homely answer
      (sort_strings (codes "home" ∷ []))
      (alias_state same_rune verifier.alias_descriptions (sort_strings (codes "home" ∷ [])))
verify-accept_example =
    verify-accept ltb hundredths same_rune verifier milk homely answer refl refl (codes "buy milk")
      (codes "home" ∷ []) homely_is
