-- ===== src/Store/Transaction/Types.antt =====
-- The requests and results of `transaction`: the headers compare,
-- range_request, put_request, delete_request, request_operation, operation_result, transaction_request
-- and transaction_result of include/kura/metadata/kv..
use kura_metadata_store.Prelude.{ℕ, Bool, List}
use kura_metadata_store.Prelude.Int.{ℤ}
use kura_metadata_store.Bytes.{ByteSequence, KeyRange, bytes_ord, int_ord}
use kura_metadata_store.Store.Types.{
  KeyValue, RangeRead, PutResult, ResponseHeader, LeaseTick, LeaseOwnership,
}

pub data CompareTarget : Type 0 where
  version create_revision mod_revision value lease_id : CompareTarget

pub data CompareResult : Type 0 where
  equal not_equal greater less : CompareResult

pub data Expected : Type 0 where
  number : ℤ → Expected
  bytes : ByteSequence → Expected

pub record Compare : Type 0 where
  pub key : ByteSequence
  pub target : CompareTarget
  pub result : CompareResult
  pub expected : Expected

pub record RangeRequest : Type 0 where
  pub range : KeyRange
  pub revision : ℤ
  pub limit : ℕ

pub record PutRequest : Type 0 where
  pub key : ByteSequence
  pub value : ByteSequence
  pub lease_id : ℤ
  pub return_previous : Bool

pub record DeleteRequest : Type 0 where
  pub range : KeyRange
  pub return_previous : Bool

pub data RequestOperation : Type 0 where
  range_op : RangeRequest → RequestOperation
  put_op : PutRequest → RequestOperation
  delete_op : DeleteRequest → RequestOperation

pub record TransactionRequest : Type 0 where
  pub comparisons : List Compare
  pub lease_ownership : List LeaseOwnership
  pub lease_tick : LeaseTick
  pub success : List RequestOperation
  pub failure : List RequestOperation

pub record DeleteRangeResult : Type 0 where
  pub deleted : ℕ
  pub previous : List KeyValue
  pub revision : ℤ

pub data TransactionOperationResult : Type 0 where
  range_read : RangeRead → TransactionOperationResult
  put_result : PutResult → TransactionOperationResult
  delete_range_result : DeleteRangeResult → TransactionOperationResult

pub record TransactionResult : Type 0 where
  pub header : ResponseHeader
  pub succeeded : Bool
  pub responses : List TransactionOperationResult
