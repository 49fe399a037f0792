-- ===== src/Tests/Exchanges.antt =====
-- src/request_handler.cpp: a response of two chunks, and a handler that throws.
use copilot_cpp.Prelude.{◌≡◌, refl, true, false, none, some, [], ◌∷◌}
use copilot_cpp.Prelude.Int.{pos}
use copilot_cpp.Inference.{
  HttpResponse, Outgoing, response_chunk, responds, complete_http, Sending, acknowledged, refused,
  response_messages, body_messages, chunk_messages, send_all, caught, fail,
}
use copilot_cpp.Inference.Replies.{receive, ends, Ended, complete_http-receive, complete_http-once}

abbrev two_chunks : HttpResponse
two_chunks = record {
  status = pos 200;
  status_text = some "OK";
  headers = ("content-type", "text/plain" ∷ []) ∷ [];
  chunks = "hel" ∷ "lo" ∷ [];
  binary = false;
}

-- The runtime refuses the end of a response, and takes everything else.
abbrev no_end : Outgoing → Sending
no_end (response_chunk id bytes binary true none) = refused "exchange is gone"
no_end _ = acknowledged

complete_http-receive_example :
    receive (complete_http (λ m. acknowledged) "r1" (responds two_chunks) false false false).0
    ≡ some (pos 200, "hel" ∷ "lo" ∷ [])
complete_http-receive_example =
    complete_http-receive (λ m. acknowledged) "r1" two_chunks false (λ m. refl)

-- the end that is refused is followed by the end of fail
refused_end : ends (complete_http no_end "r1" (responds two_chunks) false false false).0 ≡ 2
unfolding complete_http response_messages body_messages chunk_messages send_all caught fail
refused_end = refl

complete_http-once_example :
    Ended no_end
      (responds two_chunks)
      (complete_http no_end "r1" (responds two_chunks) false false false)
complete_http-once_example = complete_http-once no_end "r1" (responds two_chunks) (λ m. refl)
