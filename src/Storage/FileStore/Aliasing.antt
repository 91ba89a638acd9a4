-- ===== src/Storage/FileStore/Aliasing.antt =====
-- pkg/storage/filestore.go: the object that a caller hands to Create stays the caller's.
use kubemate.Resource.{Resource}
use kubemate.Storage.InMemory
use kubemate.Storage.FileStore.{FileStore}
