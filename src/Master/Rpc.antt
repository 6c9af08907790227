-- ===== src/Master/Rpc.antt =====
-- What a handler of master/src/grpc_service.cpp returns: `grpc::Status::OK` with the response as it
-- was filled in, or an error code with its message. No handler fills in a response that it refuses, nor
-- the error code of a `StatusResponse`.
use certos.Base.{Text, Bool}

pub data StatusCode : Type 0 where
  unauthenticated already_exists permission_denied not_found internal : StatusCode

pub data Result (R : Type 0) : Type 0 where
  ok : (response : R) → Result R
  error : (code : StatusCode) (message : Text) → Result R

pub record StatusResponse : Type 0 where
  pub success : Bool
  pub message : Text
