-- ===== src/Controller/ProviderKeys/Tests.antt =====
-- A store with two keys of one provider and one of another, with texts that stand for their ciphertexts.
use bmt_ai_os.Prelude.{
  ℕ, ◌+◌, ◌≡◌, ◌⊎◌, refl, String, true, false, none, some, List, [], ◌∷◌, str_eq, arith,
}
use bmt_ai_os.Controller.ProviderKeys.{
  ProviderKey, KeyRow, of_provider, Cipher, record_error, pick_key, is_available, is_expired,
  is_in_cooldown,
}
use bmt_ai_os.Controller.ProviderKeys.Selection.{IsLeast, is_usable, pick_key-IsLeast}
use bmt_ai_os.Controller.ProviderKeys.Cooldown.{Action, serve, report, act_all, limited_key_rests}
use bmt_ai_os.Controller.ProviderKeys.Rows.{IsFair, uses}
use bmt_ai_os.Controller.ProviderKeys.Fairness.{serve_all, serve_all-IsFair}

abbrev plain : Cipher
plain = record { encrypt = λ n s. s; decrypt = λ s. s; hash_key = λ s. s }

abbrev row : String → String → ℕ → KeyRow
row id provider uses = record {
  key = record {
    id = id;
    provider_name = provider;
    key_hash = id;
    encrypted_key = id;
    credential_type = "api_key";
    display_name = "";
    expires_at = none;
    encrypted_refresh = "";
    usage_count = uses;
    last_used = none;
    last_error = none;
    cooldown_until = none;
  };
  created_at = 0;
}

abbrev table : List KeyRow
table = row "a" "openai" 3 ∷ row "b" "openai" 2 ∷ row "c" "gemini" 0 ∷ []

picks_b : pick_key 5 "openai" table ≡ some (row "b" "openai" 2).key
unfolding pick_key
picks_b = refl

-- After an error 429 on the key that would be picked.
picks_a : pick_key 6 "openai" (record_error 5 "b" "429" true table) ≡ some (row "a" "openai" 3).key
unfolding pick_key record_error
picks_a = refl

pick_key-IsLeast_example : IsLeast (is_usable 5 "openai") table (pick_key 5 "openai" table)
pick_key-IsLeast_example = pick_key-IsLeast 5 "openai" table

abbrev busy : List Action
busy = serve 6 "openai" ∷ report 7 "b" "500" false ∷ []

limited_key_rests_example :
    (pick_key 100 "openai" (act_all plain busy (record_error 5 "b" "429" true table)) ≡ none)
    ⊎ ((k : ProviderKey) × (pick_key 100 "openai"
            (act_all plain busy (record_error 5 "b" "429" true table))
          ≡ some k)
        × (str_eq k.id "b" ≡ false))
limited_key_rests_example =
    limited_key_rests plain 5 100 "b" "429" "openai" busy table (tt, (omega arith, tt))
      (omega arith)

serve_all-IsFair_example :
    IsFair (of_provider "openai" (serve_all plain (5 ∷ 6 ∷ []) "openai" table))
    × (uses (of_provider "openai" (serve_all plain (5 ∷ 6 ∷ []) "openai" table))
        ≡ uses (of_provider "openai" table) + 2)
unfolding of_provider is_available is_in_cooldown is_expired
serve_all-IsFair_example =
    serve_all-IsFair plain (5 ∷ 6 ∷ []) "openai" table ((refl, (refl, tt)), ((refl, tt), (tt, tt)))
      (omega arith) ((refl, (refl, tt)), ((refl, (refl, tt)), tt))
      ((omega arith, (omega arith, tt)), ((omega arith, (omega arith, tt)), tt))
