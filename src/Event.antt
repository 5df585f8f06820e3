-- ===== src/Event.antt =====
-- The messages of src/proto/FzEventSet.proto, as the parser's thread builds them.
-- Objects that C++ code reaches through pointers (blocks, front-end cards, hits, data) lie in one
-- store for each type; a pointer is an object's number, and a repeated field of messages lists
-- such numbers in order. An energy or a waveform is part of its data object.
use fz_daq.Prelude.{ℕ, List, [], map, Bool, false, Option, none, Cells, no_cells}
use Prim.Native.String.{String}

pub data FzDataType : Type 0 where
  qh1 i1 ql1 q2 i2 q3 adc unkdt : FzDataType

-- `value` holds uint32 numbers.
pub record Energy : Type 0 where
  pub value : List ℕ
  pub len_error : Bool

pub record Waveform : Type 0 where
  pub pretrig : ℕ
  pub sample : List ℕ
  pub len_error : Bool

-- `sine` and `cosine` are the bit patterns of int64 numbers, `baseline` that of a float.
pub record FzData : Type 0 where
  pub type : FzDataType
  pub energy : Option Energy
  pub waveform : Option Waveform
  pub sine : ℕ
  pub cosine : ℕ
  pub baseline : ℕ

-- Enumerators of FzFec, FzTelescope and FzDetector are numbers here: the code casts words to them.
pub record FzHit : Type 0 where
  pub ec : ℕ
  pub telid : ℕ
  pub detid : ℕ
  pub feeid : ℕ
  pub gttag : ℕ
  pub dettag : ℕ
  pub trigpat : ℕ
  pub datas : List ℕ

pub record FzFee : Type 0 where
  pub feeid : ℕ
  pub hit : List ℕ
  pub len_error : Bool
  pub crc_error : Bool

pub record FzBlock : Type 0 where
  pub blkid : ℕ
  pub fee : List ℕ
  pub len_error : Bool
  pub crc_error : Bool

pub record FzTrigInfo : Type 0 where
  pub id : ℕ
  pub attr : String
  pub value : ℕ

-- An event with the stores of the objects below it.
pub record FzEvent : Type 0 where
  pub ec : ℕ
  pub regid : ℕ
  pub block : List ℕ
  pub trinfo : List FzTrigInfo
  pub blocks : Cells FzBlock
  pub fees : Cells FzFee
  pub hits : Cells FzHit
  pub datas : Cells FzData

-- A message none of whose fields is set.
abbrev pub new_energy : Energy
new_energy = record { value = []; len_error = false }

abbrev pub new_waveform : Waveform
new_waveform = record { pretrig = 0; sample = []; len_error = false }

abbrev pub new_data : FzData
new_data = record { type = qh1; energy = none; waveform = none; sine = 0; cosine = 0; baseline = 0 }

abbrev pub new_hit : FzHit
new_hit = record {
  ec = 0;
  telid = 0;
  detid = 0;
  feeid = 0;
  gttag = 0;
  dettag = 0;
  trigpat = 0;
  datas = [];
}

abbrev pub new_fee : FzFee
new_fee = record { feeid = 0; hit = []; len_error = false; crc_error = false }

abbrev pub new_block : FzBlock
new_block = record { blkid = 0; fee = []; len_error = false; crc_error = false }

-- `Clear`: no object is left, so every pointer into the event dangles.
abbrev pub new_event : FzEvent
new_event = record {
  ec = 0;
  regid = 0;
  block = [];
  trinfo = [];
  blocks = no_cells new_block;
  fees = no_cells new_fee;
  hits = no_cells new_hit;
  datas = no_cells new_data;
}

-- An event as it is serialized: the objects themselves, where the stores have their numbers.
pub record HitTree : Type 0 where
  pub ec : ℕ
  pub telid : ℕ
  pub detid : ℕ
  pub feeid : ℕ
  pub gttag : ℕ
  pub dettag : ℕ
  pub trigpat : ℕ
  pub datas : List FzData

pub record FeeTree : Type 0 where
  pub feeid : ℕ
  pub hits : List HitTree
  pub len_error : Bool
  pub crc_error : Bool

pub record BlockTree : Type 0 where
  pub blkid : ℕ
  pub fees : List FeeTree
  pub len_error : Bool
  pub crc_error : Bool

pub record EventTree : Type 0 where
  pub ec : ℕ
  pub regid : ℕ
  pub blocks : List BlockTree
  pub trinfo : List FzTrigInfo

abbrev pub hit_tree : FzEvent → FzHit → HitTree
hit_tree ev h = record {
  ec = h.ec;
  telid = h.telid;
  detid = h.detid;
  feeid = h.feeid;
  gttag = h.gttag;
  dettag = h.dettag;
  trigpat = h.trigpat;
  datas = map ev.datas.cell h.datas;
}

abbrev pub fee_tree : FzEvent → FzFee → FeeTree
fee_tree ev f = record {
  feeid = f.feeid;
  hits = map (λ p. hit_tree ev (ev.hits.cell p)) f.hit;
  len_error = f.len_error;
  crc_error = f.crc_error;
}

abbrev pub block_tree : FzEvent → FzBlock → BlockTree
block_tree ev b = record {
  blkid = b.blkid;
  fees = map (λ p. fee_tree ev (ev.fees.cell p)) b.fee;
  len_error = b.len_error;
  crc_error = b.crc_error;
}

abbrev pub event_tree : FzEvent → EventTree
event_tree ev = record {
  ec = ev.ec;
  regid = ev.regid;
  blocks = map (λ p. block_tree ev (ev.blocks.cell p)) ev.block;
  trinfo = ev.trinfo;
}
