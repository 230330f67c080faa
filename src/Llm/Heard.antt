-- ===== src/Llm/Heard.antt =====
-- What a client hears of a chat (wheel/llm/imp/deepseek_engine.cpp).
use lynne_social.Prelude.{
  ℕ, suc, ◌+◌, ◌≡◌, Option, none, some, [], ◌∷◌, Text, length, length-append, length-snoc, arith,
  Option-cases, inl, inr,
}
use lynne_social.Json.{JsonLib}
use lynne_social.Llm.{
  Engine, Env, Job, Outcome, Answer, result, error, queue_chat, chat, outcome, deliver, answered,
  unless_empty, default_base_url, chat_body,
}
use lynne_social.Llm.Url.{Endpoint, parse_base_url}

module _ (J : JsonLib) where
  open J use {Json, dump}

  -- What clients have heard of, and what is still to come.
  abbrev pub heard : Engine J → ℕ
  heard s = length s.calls + length s.jobs

  abbrev pub returned : Option (Unit {0}) → ℕ
  returned none = 0
  returned (some u) = 1

  deliver_one :
      (job : Job J) (a b : ℕ) (o : Outcome J) (s : Engine J)
      → job.on_result ≡ some a
      → job.on_error ≡ some b
      → length (deliver J job o s).calls ≡ suc (length s.calls)
  deliver_one job a b (result j) s h k =
      rw h (omega (arith, length-append s.calls ((a, result j) ∷ [])))
  deliver_one job a b (error e) s h k =
      rw k (omega (arith, length-append s.calls ((b, error e) ∷ [])))

  -- A job with both callbacks makes exactly one call of its client, whatever the HTTPS client
  -- answers.
  pub answered_once :
      (job : Job J) (a b : ℕ) (parse_error : Text) (ans : Answer J) (s : Engine J)
      → job.on_result ≡ some a
      → job.on_error ≡ some b
      → length (answered J job parse_error ans s).calls ≡ suc (length s.calls)
  unfolding answered
  answered_once job a b parse_error ans s h k =
      deliver_one job a b (outcome J parse_error ans) s h k

  queue_one :
      (env : Env J) (a b : Option ℕ) (url : Endpoint) (body : Option Text) (s : Engine J)
      → heard (queue_chat J env a b url body s).1
        ≡ heard s + returned (queue_chat J env a b url body s).0
  queue_one env a b url none s = omega arith
  queue_one env a b url (some body) s = rw (length-snoc) (omega arith)

  -- With both callbacks given, a chat that returns adds exactly one thing to the calls that
  -- clients have heard and the jobs that wait: a call of on_error, or a job. A chat that throws
  -- adds none.
  pub heard-chat :
      (env : Env J) (messages tools : Json) (a b : ℕ) (s : Engine J)
      → heard (chat J env messages (some a) (some b) tools s).1
        ≡ heard s + returned (chat J env messages (some a) (some b) tools s).0
  unfolding chat
  heard-chat env messages tools a b s =
      let base_url = unless_empty J s.config.base_url (default_base_url J) in
      elim (Option-cases (parse_base_url base_url)) [
        | inl e ↦ rw (e, chat) (omega arith)
        | inr (none, e) ↦ rw (e, chat, length-snoc) (omega arith)
        | inr (some url, e) ↦
            rw (e, chat)
              (queue_one env (some a) (some b) url (dump (chat_body J s.config messages tools)) s)
      ]
