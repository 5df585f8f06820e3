-- ===== src/Rcs.antt =====
-- The run control messages of src/proto/FzRCS.proto. A field that is optional and not set is the
-- empty text, which is what its accessor returns.
use fz_daq.Prelude.{List, [], String}

pub data Channel : Type 0 where
  rc setup : Channel

pub data Operation : Type 0 where
  read write : Operation

pub data Module : Type 0 where
  rd psr wr nm cnt : Module

pub record Request : Type 0 where
  pub channel : Channel
  pub operation : Operation
  pub module_of : Module
  pub hostname : String
  pub variable : String
  pub value : String

pub data ErrorCode : Type 0 where
  rcs_ok rcs_err rcs_deny : ErrorCode

pub record RcsNode : Type 0 where
  pub hostname : String
  pub profile : String
  pub status : String

pub record Response : Type 0 where
  pub value : String
  pub errorcode : ErrorCode
  pub reason : String
  pub nodes : List RcsNode

-- What `set_errorcode` and `set_reason` leave of a new response.
abbrev pub answer : ErrorCode → String → Response
answer code text = record { value = ""; errorcode = code; reason = text; nodes = [] }
