-- ===== src/Tests/Launch.antt =====
-- The launch of Chrome, at a child that prints its address.
use lynne_social.Prelude.{
  nat_eq, lookup, insert, erase, ℕ, ◌≡◌, refl, true, none, some, [], ◌∷◌, ◌++◌, Text, txt, pos,
  ◌==◌, ==_iff, Bool-cases, inl, inr, ◌<◌, if◌then◌else◌, arith, length, ◌≤◌, ◌*◌, ◌/◌,
}
use lynne_social.Json.Example.{example}
use lynne_social.Browser.Config.{default_config}
use lynne_social.Browser.State.{Manager, call_done, ignore_error}
use lynne_social.Browser.Lifecycle.{manager, on_launched}
use lynne_social.Browser.Base64.{base64_decode, strip_spaces}
use lynne_social.Browser.Base64.Size.{length-base64_decode-le}
use lynne_social.Json.Value.{null}
use lynne_social.Browser.Commands.{send_command}
use lynne_social.Browser.Fresh.Methods.{sends}
use lynne_social.Browser.Fresh.Reach.{here, next, runs, send_command_keeps_waiting}
use lynne_social.Browser.Launch.{
  System, Poll, chunk, poll_timeout, scheme, read_url, await_server, requests, launch_chrome,
  launch_of,
}
use lynne_social.Browser.Launch.Output.{read_url_cut}
use lynne_social.Browser.Launch.Port.{await_server_port}
use lynne_social.Browser.Launch.Outcome.{Settled, on_launched-launch_chrome}
use lynne_social.Browser.Launch.Bounded.{launch_chrome_bounded}

abbrev line : Text
line = txt "on " ++ (scheme ++ (txt "h:1/d" ++ (10 ∷ [])))

abbrev polls : ℕ → Poll
polls i = if i == 0 then poll_timeout else chunk line

abbrev system : System
system = record {
  executable = λ p. true;
  pipe_ok = true;
  fork_pid = some 7;
  polls = polls;
  server = λ p i. none;
}

-- The same, but for what comes behind the sixty polls.
abbrev later : System
later = record system { polls = λ i. if i == 60 then poll_timeout else polls i }

read_url_cut_example :
    read_url 60 0 (λ i. chunk (txt "on " ++ (scheme ++ txt "h:"))) [] ≡ scheme ++ txt "h:"
unfolding txt
read_url_cut_example =
    read_url_cut 59 0 (λ i. chunk (txt "on " ++ (scheme ++ txt "h:"))) [] (txt "on ") (txt "h:") tt
      (omega arith) (refl, (refl, tt)) refl

await_server_port_example :
    (await_server system (pos 9222) 7 (scheme ++ (txt "h" ++ (b':' ∷ txt "1/d")))).asked
    ≡ some (pos 9222, requests 5 0 (system.server (pos 9222)))
unfolding txt
await_server_port_example =
    await_server_port system (pos 9222) 7 (txt "h") (txt "1/d") (omega arith) (omega arith)

abbrev none_yet : Manager example
none_yet = manager example default_config (record { dirs = []; files = [] })

on_launched-launch_chrome_example :
    Settled system
      (launch_chrome system default_config)
      none_yet
      (on_launched example (launch_of example (launch_chrome system default_config)) none_yet)
unfolding manager
on_launched-launch_chrome_example =
    on_launched-launch_chrome example system default_config none_yet refl

same_before : (i : ℕ) → i < 60 → system.polls i ≡ later.polls i
same_before i h = elim (Bool-cases (i == 60)) [
  | inl e ↦ absurd (omega (arith, (==_iff i 60).0 e))
  | inr e ↦ rw e
]

launch_chrome_bounded_example :
    launch_chrome system default_config ≡ launch_chrome later default_config
launch_chrome_bounded_example = launch_chrome_bounded system later default_config (record {
  same_files = λ p. refl;
  same_pipe = refl;
  same_fork = refl;
  same_polls = same_before;
  same_server = λ p i h. refl;
})

length-base64_decode-le_example :
    length (base64_decode (txt "aGk=")) ≤ length (strip_spaces (txt "aGk=")) * 3 / 4
length-base64_decode-le_example = length-base64_decode-le (txt "aGk=")

abbrev asked : Manager example
asked = (send_command example (txt "A") null (call_done 1) ignore_error [] none_yet).1

-- A second command beside one that waits.
send_command_keeps_waiting_example :
    let t = (send_command example (txt "B") null (call_done 2) ignore_error [] asked).1 in
    (lookup 0 t.pending ≡ some (record { on_ok = call_done 1; on_error = ignore_error }))
    × (lookup asked.cmd_id t.pending
        ≡ some (record { on_ok = call_done 2; on_error = ignore_error }))
unfolding send_command manager lookup insert erase
send_command_keeps_waiting_example =
    send_command_keeps_waiting example (λ p d. true) default_config
      (record { dirs = []; files = [] }) (txt "B") null (call_done 2) ignore_error [] 0
      (record { on_ok = call_done 1; on_error = ignore_error })
      (next here (runs none_yet (sends (txt "A") null (call_done 1) ignore_error []))) refl
