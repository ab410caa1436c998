-- ===== src/Api.antt =====
-- api/proto/codeRunner.proto: the messages between the parts, in the fields that the code reads.
use code_runner_backend.Prelude.{ℕ}
use code_runner_backend.Prelude.Text.{Text}

pub record ExecuteRequest : Type 0 where
  pub id : Text
  pub uid : ℕ
  pub language : Text
  pub code_block : Text
  pub call_back_url : Text

pub record ExecuteResponse : Type 0 where
  pub id : Text
  pub uid : ℕ
  pub grpc_code : Text
  pub result : Text
  pub err : Text
  pub call_back_url : Text
